-- ===== src/Graph/Usable.antt =====
-- What the edits of apps/patcher_graph.cpp keep of a graph: distinct ids, and edges that are wires
-- between nodes of the graph.
use mathlib.Core.List.{Memᴰ}
use mathlib.Core.List.Memᴰ
use unidaw.Base.{
  ℕ, suc, ◌≡◌, refl, inl, inr, List, [], ◌∷◌, ◌++◌, length, ◌==◌, ltb, ◌||◌, not, Bool, true,
  Option, some, remove_if, any_of, erase_at, pop_back, pop_back-append, get_elem?, All, All-imp,
  All-append, Bool-cases, Option-cases, arith, subst, ap, sym, ◌∙◌, replicate,
}
use unidaw.Graph.{
  PatcherNode, PatcherNodeType, PatcherEdge, PatcherGraph, is_valid_edge, find_port,
  PatcherPortDirection, patcher_max_nodes, new_node,
}
use unidaw.Graph.Build.{
  build_patcher_graph, invalid_node_index, max_node_id, link_edges, link_graph, sort_nodes, cleared,
}
use unidaw.Graph.Longest.{stages, table}
use unidaw.Graph.Edits.{
  PatcherGraphState, find_node, find_node_index, touches, id_for, build, append_edge, connect_found,
  configure, has_port, same_edge, add_patcher_node, connect_patcher_nodes, remove_patcher_node,
}
use unidaw.Graph.Kinds.{
  kind_of, kinds, IsDistinct, kinds-append, kinds-store_depths, kinds-pop_back, kinds-update_at,
  erase_at-IsDistinct, mem-erase_at, find_node-mem, index_nodes-IsDistinct,
}

-- The edge runs between two of the nodes, and isValidEdge accepts it there.
abbrev pub IsWired : List (ℕ × PatcherNodeType) → PatcherEdge → Type 0
IsWired ks e =
    (s : PatcherNodeType) × (d : PatcherNodeType) × Memᴰ (e.src.node_id, s) ks
    × Memᴰ (e.dst.node_id, d) ks
    × (is_valid_edge s d e ≡ true)

abbrev pub AreUsable : List (ℕ × PatcherNodeType) → List PatcherEdge → Type 0
AreUsable ks es = IsDistinct ks × All (IsWired ks) es

abbrev pub IsUsable : PatcherGraph → Type 0
IsUsable g = AreUsable (kinds g.nodes) g.edges

move :
    {ks ks' : List (ℕ × PatcherNodeType)} {es es' : List PatcherEdge}
    → ks' ≡ ks
    → es' ≡ es
    → AreUsable ks es
    → AreUsable ks' es'
move {ks = ks} {es' = es'} p q h =
    subst (λ x. AreUsable x es') (sym p) (subst (AreUsable ks) (sym q) h)

no_nodes : (xs : List PatcherNode) → (length xs == 0) ≡ true → IsDistinct (kinds xs)
no_nodes [] h = tt
no_nodes (x ∷ xs) h = absurd (ground arith)

module _ (sort : ℕ → List (ℕ × ℕ) → Option (List ℕ)) (out_edges : List (ℕ × ℕ) → ℕ → List ℕ) where
  -- The ids, types and edges of a graph are those of another.
  abbrev pub Keeps : PatcherGraph → PatcherGraph → Type 0
  Keeps g h = (kinds h.nodes ≡ kinds g.nodes) × (h.edges ≡ g.edges)

  sort_nodes-Keeps :
      (g : PatcherGraph) (dag : List (ℕ × ℕ)) → Keeps g (sort_nodes sort out_edges g dag).1
  sort_nodes-Keeps g dag = elim (Option-cases (sort (length g.nodes) dag)) [
    | inl z ↦ rw (z, sort_nodes) (refl, refl)
    | inr (ts, e) ↦ rw (e, sort_nodes) (kinds-store_depths _ 0 g.nodes, refl)
  ]

  link_graph-Keeps : (g : PatcherGraph) → Keeps g (link_graph sort out_edges g).1
  link_graph-Keeps g =
      let l =
        link_edges g.nodes g.id_to_index g.edges
          (record { inputs = g.resolved_inputs; dag = [] }) in
      let linked = record g { resolved_inputs = l.1.inputs } in
      elim (Bool-cases l.0) [
        | inl ok ↦ rw (ok, link_graph) (sort_nodes-Keeps linked l.1.dag)
        | inr bad ↦ rw (bad, link_graph) (refl, refl)
      ]

  pub build-Keeps : (g : PatcherGraph) → Keeps g (build sort out_edges g).1
  unfolding build_patcher_graph
  build-Keeps g = elim (Bool-cases (ltb patcher_max_nodes (length g.nodes))) [
    | inl many ↦ rw many (refl, refl)
    | inr few ↦ elim (Bool-cases (length g.nodes == 0)) [
      | inl none_there ↦ rw (few, none_there) (refl, refl)
      | inr some_there ↦ elim (Bool-cases (table g).0) [
        | inl indexed ↦
            rw (few, some_there, indexed)
              (link_graph-Keeps (record (cleared g) { id_to_index = (table g).1 }))
        | inr clash ↦ rw (few, some_there, clash) (refl, refl)
      ]
    ]
  ]

  build-IsDistinct :
      (g : PatcherGraph) → (build sort out_edges g).0 ≡ true → IsDistinct (kinds g.nodes)
  build-IsDistinct g ok = elim (Bool-cases (length g.nodes == 0)) [
    | inl none_there ↦ no_nodes g.nodes none_there
    | inr some_there ↦
        let s = stages sort out_edges g ok (ground arith) in
        (index_nodes-IsDistinct g.nodes 0 (replicate (suc (max_node_id g.nodes)) invalid_node_index)
          (omega (arith, s.few)) s.indexed).0
  ]

  build-IsUsable : (g : PatcherGraph) → IsUsable g → IsUsable (build sort out_edges g).1
  build-IsUsable g h =
      let k = build-Keeps g in
      subst (λ ks. AreUsable ks (build sort out_edges g).1.edges) (sym k.0)
        (subst (AreUsable (kinds g.nodes)) (sym k.1) h)

  IsWired-more :
      (ks more : List (ℕ × PatcherNodeType)) (es : List PatcherEdge)
      → All (IsWired ks) es
      → All (IsWired (ks ++ more)) es
  IsWired-more ks more es h =
      All-imp (IsWired ks) (IsWired (ks ++ more)) es
        (λ e w. (w.0, w.1, Memᴰ.append_left more w.2, Memᴰ.append_left more w.3, w.4)) h

  IsWired-without :
      (xs : List PatcherNode) (i id : ℕ) (es : List PatcherEdge)
      → find_node_index xs id ≡ some i
      → All (IsWired (kinds xs)) es
      → All (IsWired (kinds (erase_at xs i))) (remove_if (touches id) es)
  IsWired-without xs i id [] f h = tt
  IsWired-without xs i id (e ∷ es) f h = elim (Bool-cases (touches id e)) [
    | inl hit ↦ rw hit (IsWired-without xs i id es f h.1)
    | inr miss ↦ rw miss (
      (
        h.0.0,
        h.0.1,
        mem-erase_at xs i id e.src.node_id h.0.0 f (λ q. ground arith) h.0.2,
        mem-erase_at xs i id e.dst.node_id h.0.1 f (λ q. ground arith) h.0.3,
        h.0.4,
      ),
      IsWired-without xs i id es f h.1,
    )
  ]

  pub add_patcher_node-IsUsable :
      (s : PatcherGraphState) (type : PatcherNodeType)
      → IsUsable s.graph
      → IsUsable (add_patcher_node sort out_edges s type).1.graph
  unfolding add_patcher_node
  add_patcher_node-IsUsable s type h =
      let more = new_node (id_for s) type ∷ [] in
      let g = record s.graph { nodes = s.graph.nodes ++ more } in
      let k = build-Keeps g in
      elim (Bool-cases (build sort out_edges g).0) [
        | inl ok ↦ rw ok (
            build-IsUsable g (
              build-IsDistinct g ok,
              subst (λ ks. All (IsWired ks) s.graph.edges) (sym (kinds-append s.graph.nodes more))
                  (IsWired-more (kinds s.graph.nodes) (kinds more) s.graph.edges h.1),
            ))
        | inr bad ↦ rw bad (
            move
              (kinds-pop_back (build sort out_edges g).1.nodes
                ∙ (ap pop_back (k.0 ∙ kinds-append s.graph.nodes more)
                    ∙ pop_back-append (kinds s.graph.nodes) (id_for s, type)))
              k.1 h)
      ]

  append_edge-IsUsable :
      (s : PatcherGraphState) (e : PatcherEdge)
      → IsWired (kinds s.graph.nodes) e
      → IsUsable s.graph
      → IsUsable (append_edge sort out_edges s e).1.graph
  append_edge-IsUsable s e w h =
      let g = record s.graph { edges = s.graph.edges ++ (e ∷ []) } in
      let k = build-Keeps g in
      elim (Bool-cases (build sort out_edges g).0) [
        | inl ok ↦ rw ok (
            build-IsUsable g
              (h.0, All-append (IsWired (kinds s.graph.nodes)) s.graph.edges (e ∷ []) h.1 (w, tt)))
        | inr bad ↦ rw bad (move k.0 (ap pop_back k.1 ∙ pop_back-append s.graph.edges e) h)
      ]

  connect_found-IsUsable :
      (s : PatcherGraphState) (src dst : PatcherNodeType) (e : PatcherEdge)
      → Memᴰ (e.src.node_id, src) (kinds s.graph.nodes)
      → Memᴰ (e.dst.node_id, dst) (kinds s.graph.nodes)
      → IsUsable s.graph
      → IsUsable (connect_found sort out_edges s src dst e).1.graph
  connect_found-IsUsable s src dst e m n h =
      let no_port =
        not (has_port (find_port src e.src.port_id PatcherPortDirection.output))
        || not (has_port (find_port dst e.dst.port_id PatcherPortDirection.input)) in
      elim (Bool-cases no_port) [
        | inl missing ↦ rw (missing, connect_found) h
        | inr there ↦ elim (Bool-cases (is_valid_edge src dst e)) [
          | inr bad ↦ rw (there, bad, connect_found) h
          | inl valid ↦ elim (Bool-cases (any_of (same_edge e) s.graph.edges)) [
            | inl known ↦ rw (there, valid, known, connect_found) h
            | inr new ↦
                rw (there, valid, new, connect_found)
                  (append_edge-IsUsable s e (src, dst, m, n, valid) h)
          ]
        ]
      ]

  pub connect_patcher_nodes-IsUsable :
      (s : PatcherGraphState) (e : PatcherEdge)
      → IsUsable s.graph
      → IsUsable (connect_patcher_nodes sort out_edges s e).1.graph
  unfolding connect_patcher_nodes
  connect_patcher_nodes-IsUsable s e h =
      elim (Option-cases (find_node s.graph.nodes e.src.node_id)) [
        | inl z ↦ rw (z, connect_patcher_nodes) h
        | inr (a, f) ↦ elim (Option-cases (find_node s.graph.nodes e.dst.node_id)) [
          | inl z ↦ rw (f, z, connect_patcher_nodes) h
          | inr (b, f') ↦
              rw (f, f', connect_patcher_nodes)
                (connect_found-IsUsable s a.type b.type e
                  (find_node-mem s.graph.nodes e.src.node_id {a = a} f)
                  (find_node-mem s.graph.nodes e.dst.node_id {a = b} f') h)
        ]
      ]

  pub remove_patcher_node-IsUsable :
      (s : PatcherGraphState) (id : ℕ)
      → IsUsable s.graph
      → IsUsable (remove_patcher_node sort out_edges s id).1.graph
  unfolding remove_patcher_node
  remove_patcher_node-IsUsable s id h = elim (Option-cases (find_node_index s.graph.nodes id)) [
    | inl z ↦ rw (z, remove_patcher_node) h
    | inr (i, f) ↦
        let g = record s.graph {
          nodes = erase_at s.graph.nodes i;
          edges = remove_if (touches id) s.graph.edges;
        } in
        let kept = build-IsUsable g (
          erase_at-IsDistinct s.graph.nodes i h.0,
          IsWired-without s.graph.nodes i id s.graph.edges f h.1,
        ) in
        elim (Bool-cases (build sort out_edges g).0) [
          | inl ok ↦ rw (f, remove_patcher_node, ok) kept
          | inr bad ↦ rw (f, remove_patcher_node, bad) kept
        ]
  ]

pub configure-IsUsable :
    (s : PatcherGraphState) (id : ℕ) (fits : PatcherNodeType → Bool)
    (change : PatcherNode → PatcherNode)
    → ((n : PatcherNode) → kind_of (change n) ≡ kind_of n)
    → IsUsable s.graph
    → IsUsable (configure s id fits change).1.graph
configure-IsUsable s id fits change same h =
    elim (Option-cases (find_node_index s.graph.nodes id)) [
      | inl z ↦ rw (z, configure) h
      | inr (i, f) ↦ elim (Option-cases (get_elem? s.graph.nodes i)) [
        | inl z ↦ rw (f, z, configure) h
        | inr (n, f') ↦ elim (Bool-cases (fits n.type)) [
          | inl fit ↦
              rw (f, f', fit, configure) (move (kinds-update_at s.graph.nodes i change same) refl h)
          | inr unfit ↦ rw (f, f', unfit, configure) h
        ]
      ]
    ]
