-- ===== src/Graph/Tests.antt =====
-- Concrete patcher graphs, with a sort and an adjacency that stand for boost's.
use mathlib.Core.List.{Memᴰ, reverse}
use mathlib.Core.List.Memᴰ
use mathlib.Core.Option.{some_inj}
use mathlib.Core.Option
use unidaw.Base.{
  ℕ, zero, suc, ◌≡◌, ◌↔◌, ◌<◌, refl, Bool, true, false, ◌&&◌, ◌||◌, not, List, [], ◌∷◌, Option,
  none, some, ◌==◌, ==_iff, Bool-cases, if◌then◌else◌, length, any_of, extract, subst, ap, ap₂, ◌∙◌,
  sym, inl, inr, arith,
}
use unidaw.Graph.{
  PatcherNodeType, PatcherPortKind, PatcherEdge, PatcherGraph, new_node, is_valid_edge, find_port,
}
use unidaw.Graph.Build.{build_patcher_graph}
use unidaw.Graph.Depth.{IsOrder}
use unidaw.Graph.Ports.{is_wire, is_valid_edge_lem}
use unidaw.Abi.{default_euclidean}
use unidaw.Graph.Edits.{
  PatcherGraphState, PatcherConnectResult, connect_patcher_nodes, set_euclidean_config,
}
use unidaw.Graph.Usable.{IsUsable}
use unidaw.Graph.Run.{GraphEdit, run_all, run_all-IsUsable}
use unidaw.Graph.Stale.{IsWhole, refused_cycle_stale}
use unidaw.Graph.Longest.{IsSortOf, IsBuilt, build_patcher_graph-IsBuilt}

abbrev targets : List (ℕ × ℕ) → ℕ → List ℕ
targets [] u = []
targets (e ∷ es) u = if e.0 == u then e.1 ∷ targets es u else targets es u

targets_iff : (es : List (ℕ × ℕ)) (u v : ℕ) → Memᴰ v (targets es u) ↔ Memᴰ (u, v) es
targets_iff es u v = (to es, from es)
  where
    to : (es : List (ℕ × ℕ)) → Memᴰ v (targets es u) → Memᴰ (u, v) es
    to [] m = absurd (Memᴰ.not-nil m)
    to (e ∷ es) m = elim (Bool-cases (e.0 == u)) [
      | inl hit ↦
          elim (Memᴰ.cases_cons
            (subst (λ b. Memᴰ v (if b then e.1 ∷ targets es u else targets es u)) hit m)) [
              | inl q ↦ Memᴰ.head (ap₂ (λ x y. (x, y)) (sym ((==_iff e.0 u).0 hit)) q)
              | inr n ↦ Memᴰ.tail (to es n)
            ]
      | inr miss ↦
          Memᴰ.tail
            (to es (subst (λ b. Memᴰ v (if b then e.1 ∷ targets es u else targets es u)) miss m))
    ]

    from : (es : List (ℕ × ℕ)) → Memᴰ (u, v) es → Memᴰ v (targets es u)
    from [] m = absurd (Memᴰ.not-nil m)
    from (e ∷ es) m = elim (Bool-cases (e.0 == u)) [
      | inl hit ↦ rw hit (elim (Memᴰ.cases_cons m) [
        | inl q ↦ Memᴰ.head (ap (λ x. x.1) q)
        | inr n ↦ Memᴰ.tail (from es n)
      ])
      | inr miss ↦ rw miss (elim (Memᴰ.cases_cons m) [
        | inl q ↦ absurd (ground (arith, ap (λ x. x.0) q))
        | inr n ↦ from es n
      ])
    ]

abbrev has : List ℕ → ℕ → Bool
has us u = any_of (λ v. v == u) us

has-of_mem : (us : List ℕ) (u : ℕ) → Memᴰ u us → has us u ≡ true
has-of_mem [] u m = absurd (Memᴰ.not-nil m)
has-of_mem (v ∷ us) u m = elim (Memᴰ.cases_cons m) [
  | inl e ↦ ground arith
  | inr n ↦ ground (arith, has-of_mem us u n)
]

abbrev entered_from : List (ℕ × ℕ) → List ℕ → ℕ → Bool
entered_from [] us u = false
entered_from (e ∷ es) us u = ((e.1 == u) && has us e.0) || entered_from es us u

entered_from-of_mem :
    (es : List (ℕ × ℕ)) (us : List ℕ) (w u : ℕ)
    → Memᴰ (w, u) es
    → Memᴰ w us
    → entered_from es us u ≡ true
entered_from-of_mem [] us w u m n = absurd (Memᴰ.not-nil m)
entered_from-of_mem (e ∷ es) us w u m n = elim (Memᴰ.cases_cons m) [
  | inl q ↦
      let has_w = subst (λ x. has us x ≡ true) (ap (λ x. x.0) q) (has-of_mem us w n) in
      ground (arith, has_w, ap (λ x. x.1) q)
  | inr r ↦ ground (arith, entered_from-of_mem es us w u r n)
]

abbrev is_order : List (ℕ × ℕ) → List ℕ → Bool
is_order es [] = true
is_order es (u ∷ us) = not (has us u) && (not (entered_from es (u ∷ us) u) && is_order es us)

is_order-IsOrder : (es : List (ℕ × ℕ)) (us : List ℕ) → is_order es us ≡ true → IsOrder es us
is_order-IsOrder es [] h = tt
is_order-IsOrder es (u ∷ us) h = (
  λ m. ground (arith, has-of_mem us u m),
  λ w n m. ground (arith, entered_from-of_mem es (u ∷ us) w u m n),
  is_order-IsOrder es us (ground arith),
)

-- Sinks first.
abbrev has_target_in : List (ℕ × ℕ) → List ℕ → ℕ → Bool
has_target_in es left u = any_of (λ e. (e.0 == u) && any_of (λ v. v == e.1) left) es

abbrev sinks_first : ℕ → List (ℕ × ℕ) → List ℕ → Option (List ℕ)
sinks_first fuel es [] = some []
sinks_first zero es (v ∷ left) = none
sinks_first (suc fuel) es (v ∷ left) =
    elim (extract (λ u. not (has_target_in es (v ∷ left) u)) (v ∷ left)) [
      | none ↦ none
      | some (u, rest) ↦ Option.map (λ us. u ∷ us) (sinks_first fuel es rest)
    ]

abbrev below : ℕ → List ℕ
below zero = []
below (suc n) = n ∷ below n

abbrev sort : ℕ → List (ℕ × ℕ) → Option (List ℕ)
sort n es = sinks_first n es (below n)

abbrev event_edge : ℕ → ℕ → PatcherEdge
event_edge s d = record {
  src = record { node_id = s; port_id = 1 };
  dst = record { node_id = d; port_id = 0 };
  kind = PatcherPortKind.event;
}

-- 5 ← 7 → 3 → 5.
abbrev diamond : PatcherGraph
diamond = record {
  nodes =
      new_node 5 PatcherNodeType.event_out
      ∷ new_node 7 PatcherNodeType.euclidean
      ∷ new_node 3 PatcherNodeType.passthrough
      ∷ [];
  edges = event_edge 7 5 ∷ event_edge 7 3 ∷ event_edge 3 5 ∷ [];
  topo_order = [];
  depths = [];
  resolved_inputs = [];
  id_to_index = [];
  max_depth = 0;
}

abbrev diamond_dag : List (ℕ × ℕ)
diamond_dag = (1, 0) ∷ (1, 2) ∷ (2, 0) ∷ []

-- The order of the sort is 0, 2, 1, in reverse.
diamond-IsSortOf : IsSortOf 3 diamond_dag (0 ∷ 2 ∷ 1 ∷ [])
diamond-IsSortOf = (is_order-IsOrder diamond_dag (1 ∷ 2 ∷ 0 ∷ []) refl, refl, every)
  where
    every : (v : ℕ) → v < 3 → Memᴰ v (1 ∷ 2 ∷ 0 ∷ [])
    every zero h = Memᴰ.tail (Memᴰ.tail (Memᴰ.head refl))
    every (suc zero) h = Memᴰ.head refl
    every (suc (suc zero)) h = Memᴰ.tail (Memᴰ.head refl)
    every (suc (suc (suc v))) h = absurd (omega arith)

diamond_depths : (build_patcher_graph sort targets diamond).1.depths ≡ 2 ∷ 0 ∷ 1 ∷ []
unfolding build_patcher_graph
diamond_depths = refl

build_patcher_graph-IsBuilt_example : IsBuilt diamond (build_patcher_graph sort targets diamond).1
unfolding build_patcher_graph
build_patcher_graph-IsBuilt_example =
    build_patcher_graph-IsBuilt sort targets diamond (targets_iff diamond_dag)
      (λ ts e. subst (IsSortOf 3 diamond_dag) (some_inj.0 e) diamond-IsSortOf) (omega arith) refl

is_valid_edge_lem_example :
    is_valid_edge PatcherNodeType.lfo PatcherNodeType.rust_kernel (record {
      src = record { node_id = 1; port_id = 3 };
      dst = record { node_id = 2; port_id = 2 };
      kind = PatcherPortKind.control;
    })
    ≡ is_wire PatcherNodeType.lfo PatcherNodeType.rust_kernel 3 2 PatcherPortKind.control
is_valid_edge_lem_example =
    is_valid_edge_lem PatcherNodeType.lfo PatcherNodeType.rust_kernel (record {
      src = record { node_id = 1; port_id = 3 };
      dst = record { node_id = 2; port_id = 2 };
      kind = PatcherPortKind.control;
    })

abbrev empty_state : PatcherGraphState
empty_state = record {
  graph = record {
    nodes = [];
    edges = [];
    topo_order = [];
    depths = [];
    resolved_inputs = [];
    id_to_index = [];
    max_depth = 0;
  };
  version = 0;
  next_node_id = 0;
}

abbrev session : List GraphEdit
session =
    GraphEdit.add PatcherNodeType.euclidean
    ∷ GraphEdit.add PatcherNodeType.passthrough
    ∷ GraphEdit.add PatcherNodeType.passthrough
    ∷ GraphEdit.connect (event_edge 1 2)
    ∷ GraphEdit.connect (event_edge 2 3)
    ∷ GraphEdit.connect (event_edge 3 2)
    ∷ GraphEdit.remove 1
    ∷ []

run_all-IsUsable_example : IsUsable (run_all sort targets session empty_state).graph
run_all-IsUsable_example = run_all-IsUsable sort targets session empty_state (tt, tt)

-- A sort of which one entry for each vertex is known.
abbrev if_whole : ℕ → Option (List ℕ) → Option (List ℕ)
if_whole n none = none
if_whole n (some ts) = if length (reverse ts) == n then some ts else none

abbrev whole_sort : ℕ → List (ℕ × ℕ) → Option (List ℕ)
whole_sort n es = if_whole n (sort n es)

if_whole_lem :
    (n : ℕ) (o : Option (List ℕ)) (ts : List ℕ) → if_whole n o ≡ some ts → length (reverse ts) ≡ n
if_whole_lem n none ts e = cc
if_whole_lem n (some us) ts e = elim (Bool-cases (length (reverse us) == n)) [
  | inl same ↦
      ap (λ xs. length (reverse xs))
        (sym (some_inj.0 (subst (λ b. (if b then some us else none) ≡ some ts) same e)))
      ∙ (==_iff (length (reverse us)) n).0 same
  | inr other ↦ absurd (not_some (subst (λ b. (if b then some us else none) ≡ some ts) other e))
]
  where
    not_some : {xs : List ℕ} → none ≡ some xs → ⊥
    not_some e = cc

whole_sort-IsWhole : IsWhole whole_sort
whole_sort-IsWhole n es ts e = if_whole_lem n (sort n es) ts e

abbrev chain_state : PatcherGraphState
chain_state = record empty_state {
  graph = record empty_state.graph {
    nodes =
        new_node 1 PatcherNodeType.passthrough
        ∷ new_node 2 PatcherNodeType.passthrough
        ∷ new_node 3 PatcherNodeType.euclidean
        ∷ [];
    edges = event_edge 1 2 ∷ [];
    topo_order = 2 ∷ 0 ∷ 1 ∷ [];
  };
}

back_edge_refused :
    (connect_patcher_nodes whole_sort targets chain_state (event_edge 2 1)).0
    ≡ PatcherConnectResult.cycle
unfolding connect_patcher_nodes find_port is_valid_edge build_patcher_graph
back_edge_refused = refl

refused_cycle_stale_example :
    (set_euclidean_config
      (connect_patcher_nodes whole_sort targets chain_state (event_edge 2 1)).1
      3
      default_euclidean).1.graph.topo_order
    ≡ []
refused_cycle_stale_example =
    refused_cycle_stale whole_sort targets whole_sort-IsWhole chain_state (event_edge 2 1) 3
      default_euclidean back_edge_refused
