-- ===== src/Graph/Built.antt =====
-- buildPatcherGraph of apps/patcher_graph.cpp as a whole, against the graph that it is given.
use mathlib.Core.List.{Memᴰ, append-nil, append_assoc}
use mathlib.Core.List.Memᴰ
use unidaw.Base.{
  ℕ, zero, suc, ◌+◌, ◌≤◌, ◌<◌, ◌≡◌, ◌≢◌, refl, inl, inr, List, [], ◌∷◌, ◌++◌, map, length, get_or,
  get_elem?, set, true, some, get_or-set_self, get_or-set_ne, Option-cases, arith, subst, ap, sym,
  ◌∙◌,
}
use unidaw.Graph.{PatcherEdge, PatcherNode}
use unidaw.Graph.Build.{invalid_node_index, index_nodes, resolve_edge, Linked, link, link_edges}

-- An edge between ids as one between positions.
abbrev pub edge_indices : List ℕ → List PatcherEdge → List (ℕ × ℕ)
edge_indices ids = map (λ e.
    (get_or ids e.src.node_id invalid_node_index, get_or ids e.dst.node_id invalid_node_index))

get_elem?_lt :
    (xs : List PatcherNode) (i : ℕ) {x : PatcherNode} → get_elem? xs i ≡ some x → i < length xs
get_elem?_lt [] i e = cc
get_elem?_lt (x ∷ xs) zero e = omega arith
get_elem?_lt (x ∷ xs) (suc i) e = omega (arith, get_elem?_lt xs i e)

pub index_nodes_step :
    (node : PatcherNode) (nodes : List PatcherNode) (i : ℕ) (ids : List ℕ)
    → (index_nodes (node ∷ nodes) i ids).0 ≡ true
    → (node.id < length ids)
      × (get_or ids node.id invalid_node_index ≡ invalid_node_index)
      × (index_nodes (node ∷ nodes) i ids ≡ index_nodes nodes (suc i) (set ids node.id i))
unfolding index_nodes
index_nodes_step node nodes i ids ok = ground arith

link_edges_step :
    (nodes : List PatcherNode) (ids : List ℕ) (e : PatcherEdge) (es : List PatcherEdge) (l : Linked)
    → (link_edges nodes ids (e ∷ es) l).0 ≡ true
    → (v : ℕ × ℕ) × (resolve_edge nodes ids e ≡ some v)
      × (link_edges nodes ids (e ∷ es) l ≡ link_edges nodes ids es (link e.kind v l))
unfolding link_edges
link_edges_step nodes ids e es l ok = elim (Option-cases (resolve_edge nodes ids e)) [
  | inl z ↦ ground arith
  | inr (v, f) ↦ (v, f, rw (f, link_edges) refl)
]

-- An id that is there already is not written again.
index_nodes_old :
    (nodes : List PatcherNode) (i : ℕ) (ids : List ℕ) (k : ℕ)
    → (index_nodes nodes i ids).0 ≡ true
    → get_or ids k invalid_node_index ≢ invalid_node_index
    → get_or (index_nodes nodes i ids).1 k invalid_node_index ≡ get_or ids k invalid_node_index
unfolding index_nodes
index_nodes_old [] i ids k ok h = refl
index_nodes_old (node ∷ nodes) i ids k ok h =
    let step = index_nodes_step node nodes i ids ok in
    let other =
      get_or-set_ne ids {i = node.id} {j = k} i invalid_node_index
        (λ e. h (ap (λ x. get_or ids x invalid_node_index) (sym e) ∙ step.1)) in
    let rest =
      index_nodes_old nodes (suc i) (set ids node.id i) k (ground arith) (λ e. h (sym other ∙ e)) in
    ap (λ r. get_or r.1 k invalid_node_index) step.2 ∙ (rest ∙ other)

-- The table of a successful loop finds every node.
pub index_nodes_finds :
    (nodes : List PatcherNode) (i : ℕ) (ids : List ℕ) (j : ℕ) {node : PatcherNode}
    → i + length nodes ≤ 1024
    → (index_nodes nodes i ids).0 ≡ true
    → get_elem? nodes j ≡ some node
    → get_or (index_nodes nodes i ids).1 node.id invalid_node_index ≡ i + j
unfolding index_nodes
index_nodes_finds [] i ids j short ok e = cc
index_nodes_finds (x ∷ nodes) i ids zero {node = node} short ok e =
    let step = index_nodes_step x nodes i ids ok in
    let own = get_or-set_self ids x.id i invalid_node_index step.0 in
    let kept =
      index_nodes_old nodes (suc i) (set ids x.id i) x.id (ground arith) (λ z. omega arith) in
    ground (arith, step, own, kept)
index_nodes_finds (x ∷ nodes) i ids (suc j) {node = node} short ok e =
    let step = index_nodes_step x nodes i ids ok in
    let rest =
      index_nodes_finds nodes (suc i) (set ids x.id i) j {node = node} (omega arith) (ground arith)
        e in
    ground (arith, step, rest)

resolve_edge-some :
    (nodes : List PatcherNode) (ids : List ℕ) (e : PatcherEdge) {v : ℕ × ℕ}
    → resolve_edge nodes ids e ≡ some v
    → (v ≡ (
      get_or ids e.src.node_id invalid_node_index,
      get_or ids e.dst.node_id invalid_node_index,
    ))
      × (v.0 < length nodes)
      × (v.1 < length nodes)
unfolding resolve_edge
resolve_edge-some nodes ids e {v = v} h =
    let s = get_or ids e.src.node_id invalid_node_index in
    let d = get_or ids e.dst.node_id invalid_node_index in
    elim (Option-cases (get_elem? nodes s)) [
      | inl z ↦ ground arith
      | inr (a, f) ↦ elim (Option-cases (get_elem? nodes d)) [
        | inl z ↦ ground arith
        | inr (b, g) ↦ ground (arith, get_elem?_lt nodes s f, get_elem?_lt nodes d g)
      ]
    ]

-- The boost graph of a successful loop.
pub link_edges-dag :
    (nodes : List PatcherNode) (ids : List ℕ) (es : List PatcherEdge) (l : Linked)
    → (link_edges nodes ids es l).0 ≡ true
    → (link_edges nodes ids es l).1.dag ≡ l.dag ++ edge_indices ids es
unfolding link_edges
link_edges-dag nodes ids [] l ok = sym (append-nil l.dag)
link_edges-dag nodes ids (e ∷ es) l ok =
    let step = link_edges_step nodes ids e es l ok in
    let rest =
      link_edges-dag nodes ids es (link e.kind step.0 l) (ap (λ r. r.0) (sym step.2) ∙ ok) in
    let place = (resolve_edge-some nodes ids e step.1).0 in
    ap (λ r. r.1.dag) step.2
    ∙ (rest
        ∙ (append_assoc l.dag (step.0 ∷ []) (edge_indices ids es)
            ∙ ap (λ w. l.dag ++ (w ∷ edge_indices ids es)) place))

pub link_edges_ends :
    (nodes : List PatcherNode) (ids : List ℕ) (es : List PatcherEdge) (l : Linked)
    → (link_edges nodes ids es l).0 ≡ true
    → (u v : ℕ) → Memᴰ (u, v) (edge_indices ids es)
    → (u < length nodes) × (v < length nodes)
unfolding link_edges
link_edges_ends nodes ids [] l ok u v m = absurd (Memᴰ.not-nil m)
link_edges_ends nodes ids (e ∷ es) l ok u v m =
    let step = link_edges_step nodes ids e es l ok in
    let place = resolve_edge-some nodes ids e step.1 in
    elim (Memᴰ.cases_cons m) [
      | inl same ↦
          let q = same ∙ sym place.0 in
          subst (λ w. (w.0 < length nodes) × (w.1 < length nodes)) (sym q) (place.1, place.2)
      | inr n ↦
          link_edges_ends nodes ids es (link e.kind step.0 l) (ap (λ r. r.0) (sym step.2) ∙ ok) u v
            n
    ]
