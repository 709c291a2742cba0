-- ===== src/Graph/Stale.antt =====
-- What connectPatcherNodes of apps/patcher_graph.cpp leaves when it refuses a cycle.
use mathlib.Core.List.{reverse}
use unidaw.Base.{
  ℕ, ◌≡◌, refl, inl, inr, List, [], ◌∷◌, ◌++◌, length, ◌==◌, ltb, ◌||◌, not, Bool, false, Option,
  some, any_of, Bool-cases, Option-cases, arith, ◌∙◌, get_elem?,
}
use unidaw.Abi.{PatcherEuclideanConfig}
use unidaw.Graph.{
  PatcherNodeType, PatcherEdge, PatcherGraph, PatcherPortDirection, is_valid_edge, find_port,
  patcher_max_nodes,
}
use unidaw.Graph.Build.{build_patcher_graph, link_edges, link_graph, sort_nodes, cleared}
use unidaw.Graph.Longest.{table}
use unidaw.Graph.Edits.{
  PatcherGraphState, PatcherConnectResult, find_node, find_node_index, build, append_edge,
  connect_found, configure, has_port, same_edge, connect_patcher_nodes, set_euclidean_config,
  is_euclidean,
}

-- A build that failed left no order.
abbrev Unordered : Bool × PatcherGraph → Type 0
Unordered r = r.0 ≡ false → r.1.topo_order ≡ []

-- A call that answered Cycle left no order.
abbrev UnorderedCycle : PatcherConnectResult × PatcherGraphState → Type 0
UnorderedCycle r = r.0 ≡ PatcherConnectResult.cycle → r.1.graph.topo_order ≡ []

-- What boost::topological_sort writes has one entry for each vertex.
abbrev pub IsWhole : (ℕ → List (ℕ × ℕ) → Option (List ℕ)) → Type 0
IsWhole sort =
    (n : ℕ) (es : List (ℕ × ℕ)) (ts : List ℕ) → sort n es ≡ some ts → length (reverse ts) ≡ n

module _ (sort : ℕ → List (ℕ × ℕ) → Option (List ℕ)) (out_edges : List (ℕ × ℕ) → ℕ → List ℕ)
    (whole : IsWhole sort) where
  sort_nodes-Unordered :
      (g : PatcherGraph) (dag : List (ℕ × ℕ))
      → g.topo_order ≡ []
      → Unordered (sort_nodes sort out_edges g dag)
  sort_nodes-Unordered g dag clear = elim (Option-cases (sort (length g.nodes) dag)) [
    | inl z ↦ rw (z, sort_nodes) (λ bad. clear)
    | inr (ts, e) ↦ rw (e, sort_nodes) (λ bad. ground (arith, whole (length g.nodes) dag ts e))
  ]

  link_graph-Unordered :
      (g : PatcherGraph) → g.topo_order ≡ [] → Unordered (link_graph sort out_edges g)
  link_graph-Unordered g clear =
      let l =
        link_edges g.nodes g.id_to_index g.edges
          (record { inputs = g.resolved_inputs; dag = [] }) in
      let linked = record g { resolved_inputs = l.1.inputs } in
      elim (Bool-cases l.0) [
        | inl ok ↦ rw (ok, link_graph) (sort_nodes-Unordered linked l.1.dag clear)
        | inr no_link ↦ rw (no_link, link_graph) (λ bad. clear)
      ]

  build-Unordered : (g : PatcherGraph) → Unordered (build sort out_edges g)
  unfolding build_patcher_graph
  build-Unordered g = elim (Bool-cases (ltb patcher_max_nodes (length g.nodes))) [
    | inl many ↦ rw many (λ bad. refl)
    | inr few ↦ elim (Bool-cases (length g.nodes == 0)) [
      | inl none_there ↦ rw (few, none_there) (λ bad. refl)
      | inr some_there ↦ elim (Bool-cases (table g).0) [
        | inl indexed ↦
            rw (few, some_there, indexed)
              (link_graph-Unordered (record (cleared g) { id_to_index = (table g).1 }) refl)
        | inr clash ↦ rw (few, some_there, clash) (λ bad. refl)
      ]
    ]
  ]

  append_edge-UnorderedCycle :
      (s : PatcherGraphState) (e : PatcherEdge) → UnorderedCycle (append_edge sort out_edges s e)
  append_edge-UnorderedCycle s e =
      let g = record s.graph { edges = s.graph.edges ++ (e ∷ []) } in
      elim (Bool-cases (build sort out_edges g).0) [
        | inl ok ↦ rw ok (λ c. ground arith)
        | inr bad ↦ rw bad (λ c. build-Unordered g bad)
      ]

  connect_found-UnorderedCycle :
      (s : PatcherGraphState) (src dst : PatcherNodeType) (e : PatcherEdge)
      → UnorderedCycle (connect_found sort out_edges s src dst e)
  connect_found-UnorderedCycle s src dst e =
      let no_port =
        not (has_port (find_port src e.src.port_id PatcherPortDirection.output))
        || not (has_port (find_port dst e.dst.port_id PatcherPortDirection.input)) in
      elim (Bool-cases no_port) [
        | inl missing ↦ rw (missing, connect_found) (λ c. ground arith)
        | inr there ↦ elim (Bool-cases (is_valid_edge src dst e)) [
          | inr bad ↦ rw (there, bad, connect_found) (λ c. ground arith)
          | inl valid ↦ elim (Bool-cases (any_of (same_edge e) s.graph.edges)) [
            | inl known ↦ rw (there, valid, known, connect_found) (λ c. ground arith)
            | inr new ↦ rw (there, valid, new, connect_found) (append_edge-UnorderedCycle s e)
          ]
        ]
      ]

  connect_patcher_nodes-UnorderedCycle :
      (s : PatcherGraphState) (e : PatcherEdge)
      → UnorderedCycle (connect_patcher_nodes sort out_edges s e)
  unfolding connect_patcher_nodes
  connect_patcher_nodes-UnorderedCycle s e =
      elim (Option-cases (find_node s.graph.nodes e.src.node_id)) [
        | inl z ↦ rw (z, connect_patcher_nodes) (λ c. ground arith)
        | inr (a, f) ↦ elim (Option-cases (find_node s.graph.nodes e.dst.node_id)) [
          | inl z ↦ rw (f, z, connect_patcher_nodes) (λ c. ground arith)
          | inr (b, f') ↦
              rw (f, f', connect_patcher_nodes) (connect_found-UnorderedCycle s a.type b.type e)
        ]
      ]

set_euclidean_config_order :
    (s : PatcherGraphState) (id : ℕ) (c : PatcherEuclideanConfig)
    → (set_euclidean_config s id c).1.graph.topo_order ≡ s.graph.topo_order
unfolding set_euclidean_config
set_euclidean_config_order s id c = elim (Option-cases (find_node_index s.graph.nodes id)) [
  | inl z ↦ rw (z, configure) refl
  | inr (i, f) ↦ elim (Option-cases (get_elem? s.graph.nodes i)) [
    | inl z ↦ rw (f, z, configure) refl
    | inr (n, f') ↦ elim (Bool-cases (is_euclidean n.type)) [
      | inl fit ↦ rw (f, f', fit, configure) refl
      | inr unfit ↦ rw (f, f', unfit, configure) refl
    ]
  ]
]

-- When connectPatcherNodes has answered Cycle, the graph that a following call of
-- setEuclideanConfig leaves has an empty topoOrder. Of boost, a topological sort writes one entry
-- for each vertex.
pub refused_cycle_stale :
    (sort : ℕ → List (ℕ × ℕ) → Option (List ℕ)) (out_edges : List (ℕ × ℕ) → ℕ → List ℕ)
    → IsWhole sort
    → (s : PatcherGraphState) (e : PatcherEdge) (id : ℕ) (c : PatcherEuclideanConfig)
    → (connect_patcher_nodes sort out_edges s e).0 ≡ PatcherConnectResult.cycle
    → (set_euclidean_config (connect_patcher_nodes sort out_edges s e).1 id c).1.graph.topo_order
      ≡ []
refused_cycle_stale sort out_edges whole s e id c refused =
    set_euclidean_config_order (connect_patcher_nodes sort out_edges s e).1 id c
    ∙ connect_patcher_nodes-UnorderedCycle sort out_edges whole s e refused
