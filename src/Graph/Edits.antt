-- ===== src/Graph/Edits.antt =====
-- The edits of a PatcherGraphState in apps/patcher_graph.cpp. Each call holds the mutex from its
-- first line to its last, so it is one step here; `build` is the call of buildPatcherGraph.
use unidaw.Base.{
  ℕ, Bool, true, false, ◌&&◌, ◌||◌, not, List, [], ◌∷◌, ◌++◌, Option, none, some, ◌==◌,
  if◌then◌else◌, leb, find_if, remove_if, any_of, get_elem?, erase_at, pop_back, update_at,
}
use unidaw.Base.Words.{u32_max, add32}
use unidaw.Abi.{PatcherEuclideanConfig, PatcherLfoConfig, PatcherRandomDegreeConfig}
use unidaw.Graph.{
  PatcherNodeType, PatcherPortDirection, PatcherEdge, PatcherNode, PatcherGraph, PatcherPortDesc,
  new_node, same_kind, find_port, is_valid_edge,
}
use unidaw.Graph.Build.{max_node_id, build_patcher_graph}

pub record PatcherGraphState : Type 0 where
  pub graph : PatcherGraph
  pub version : ℕ
  pub next_node_id : ℕ

pub data PatcherConnectResult : Type 0 where
  ok invalid_node invalid_connection invalid_port cycle : PatcherConnectResult

abbrev pub find_node_index : List PatcherNode → ℕ → Option ℕ
find_node_index nodes id = find_if (λ n. n.id == id) nodes

-- `state.graph.nodes[*index]` of an index that `findNodeIndex` found.
abbrev pub find_node : List PatcherNode → ℕ → Option PatcherNode
find_node nodes id = elim (find_node_index nodes id) [ none ↦ none | some i ↦ get_elem? nodes i ]

abbrev pub same_edge : PatcherEdge → PatcherEdge → Bool
same_edge e x =
    (x.src.node_id == e.src.node_id)
    && ((x.src.port_id == e.src.port_id)
        && ((x.dst.node_id == e.dst.node_id)
            && ((x.dst.port_id == e.dst.port_id) && same_kind x.kind e.kind)))

abbrev pub touches : ℕ → PatcherEdge → Bool
touches id e = (e.src.node_id == id) || (e.dst.node_id == id)

abbrev pub has_port : Option PatcherPortDesc → Bool
has_port none = false
has_port (some p) = true

-- `state.version.fetch_add(1)` with the graph that was built.
abbrev pub commit : PatcherGraphState → PatcherGraph → PatcherGraphState
commit s g = record s { graph = g; version = add32 s.version 1 }

-- The id that the next node gets.
abbrev pub id_for : PatcherGraphState → ℕ
id_for s =
    let max_id = max_node_id s.graph.nodes in
    if leb s.next_node_id max_id then add32 max_id 1 else s.next_node_id

module _ (sort : ℕ → List (ℕ × ℕ) → Option (List ℕ)) (out_edges : List (ℕ × ℕ) → ℕ → List ℕ) where
  abbrev pub build : PatcherGraph → Bool × PatcherGraph
  build g = build_patcher_graph sort out_edges g

  unfoldable pub add_patcher_node : PatcherGraphState → PatcherNodeType → ℕ × PatcherGraphState
  add_patcher_node s type =
      let id = id_for s in
      let t = record s { next_node_id = add32 id 1 } in
      let built = build (record s.graph { nodes = s.graph.nodes ++ (new_node id type ∷ []) }) in
      if built.0
      then (id, commit t built.1)
      else (u32_max, record t { graph = record (built.1) { nodes = pop_back built.1.nodes } })

  -- The edge is appended, and taken back when the build fails.
  abbrev pub append_edge :
      PatcherGraphState → PatcherEdge → PatcherConnectResult × PatcherGraphState
  append_edge s e =
      let built = build (record s.graph { edges = s.graph.edges ++ (e ∷ []) }) in
      if built.0 then (PatcherConnectResult.ok, commit s built.1) else (
        PatcherConnectResult.cycle,
        record s { graph = record (built.1) { edges = pop_back built.1.edges } },
      )

  abbrev pub connect_found :
      PatcherGraphState
      → PatcherNodeType
      → PatcherNodeType
      → PatcherEdge
      → PatcherConnectResult × PatcherGraphState
  connect_found s src dst e =
      if not (has_port (find_port src e.src.port_id PatcherPortDirection.output))
        || not (has_port (find_port dst e.dst.port_id PatcherPortDirection.input))
      then (PatcherConnectResult.invalid_port, s)
      else if not (is_valid_edge src dst e)
      then (PatcherConnectResult.invalid_connection, s)
      else if any_of (same_edge e) s.graph.edges
      then (PatcherConnectResult.ok, s)
      else append_edge s e

  unfoldable pub connect_patcher_nodes :
      PatcherGraphState → PatcherEdge → PatcherConnectResult × PatcherGraphState
  connect_patcher_nodes s e = elim (find_node s.graph.nodes e.src.node_id) [
    | none ↦ (PatcherConnectResult.invalid_node, s)
    | some a ↦ elim (find_node s.graph.nodes e.dst.node_id) [
      | none ↦ (PatcherConnectResult.invalid_node, s)
      | some b ↦ connect_found s a.type b.type e
    ]
  ]

  unfoldable pub remove_patcher_node : PatcherGraphState → ℕ → Bool × PatcherGraphState
  remove_patcher_node s id = elim (find_node_index s.graph.nodes id) [
    | none ↦ (false, s)
    | some i ↦
        let built = build (record s.graph {
          nodes = erase_at s.graph.nodes i;
          edges = remove_if (touches id) s.graph.edges;
        }) in
        if built.0 then (true, commit s built.1) else (false, record s { graph = built.1 })
  ]

-- A setter of the configuration that nodes of type `type` have.
abbrev pub configure :
    PatcherGraphState
    → ℕ
    → (PatcherNodeType → Bool)
    → (PatcherNode → PatcherNode)
    → Bool × PatcherGraphState
configure s id fits change = elim (find_node_index s.graph.nodes id) [
  | none ↦ (false, s)
  | some i ↦ elim (get_elem? s.graph.nodes i) [
    | none ↦ (false, s)
    | some n ↦
        if fits n.type
        then (true, commit s (record s.graph { nodes = update_at s.graph.nodes i change }))
        else (false, s)
  ]
]

abbrev pub is_euclidean : PatcherNodeType → Bool
is_euclidean PatcherNodeType.euclidean = true
is_euclidean _ = false

abbrev pub is_lfo : PatcherNodeType → Bool
is_lfo PatcherNodeType.lfo = true
is_lfo _ = false

abbrev pub is_random_degree : PatcherNodeType → Bool
is_random_degree PatcherNodeType.random_degree = true
is_random_degree _ = false

unfoldable pub set_euclidean_config :
    PatcherGraphState → ℕ → PatcherEuclideanConfig → Bool × PatcherGraphState
set_euclidean_config s id config =
    configure s id is_euclidean
      (λ n. record n { has_euclidean_config = true; euclidean_config = config })

unfoldable pub set_lfo_config : PatcherGraphState → ℕ → PatcherLfoConfig → Bool × PatcherGraphState
set_lfo_config s id config =
    configure s id is_lfo (λ n. record n { has_lfo_config = true; lfo_config = config })

unfoldable pub set_random_degree_config :
    PatcherGraphState → ℕ → PatcherRandomDegreeConfig → Bool × PatcherGraphState
set_random_degree_config s id config =
    configure s id is_random_degree
      (λ n. record n { has_random_degree_config = true; random_degree_config = config })
