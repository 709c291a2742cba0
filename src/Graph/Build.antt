-- ===== src/Graph/Build.antt =====
-- buildPatcherGraph of apps/patcher_graph.cpp: the derived fields of a graph from its nodes and
-- edges. boost::topological_sort and boost::out_edges are parameters; the boost graph is the list
-- of its edges in the order of the add_edge calls.
use mathlib.Core.List.{reverse}
use unidaw.Base.{
  ℕ, suc, ◌+◌, ◌%◌, max, Bool, true, false, ◌||◌, not, List, [], ◌∷◌, ◌++◌, Option, none, some,
  ◌==◌, if◌then◌else◌, ltb, length, get_elem?, get_or, set, replicate,
}
use unidaw.Base.Words.{u32_max}
use unidaw.Graph.{
  PatcherPortKind, PatcherEdge, PatcherNode, PatcherGraph, patcher_max_nodes, same_kind,
  is_valid_edge,
}

abbrev pub invalid_node_index : ℕ
invalid_node_index = u32_max

abbrev pub max_node_id : List PatcherNode → ℕ
max_node_id [] = 0
max_node_id (node ∷ nodes) = max node.id (max_node_id nodes)

-- The derived fields as they stand before the first test.
abbrev pub cleared : PatcherGraph → PatcherGraph
cleared g = record g {
  topo_order = [];
  depths = replicate (length g.nodes) 0;
  resolved_inputs = replicate (length g.nodes) [];
  id_to_index = [];
  max_depth = 0;
}

-- The loop that fills idToIndex from position `i` on. A failure keeps what is filled.
unfoldable pub index_nodes : List PatcherNode → ℕ → List ℕ → Bool × List ℕ
index_nodes [] i ids = (true, ids)
index_nodes (node ∷ nodes) i ids =
    if not (ltb node.id (length ids))
      || not (get_or ids node.id invalid_node_index == invalid_node_index)
    then (false, ids)
    else index_nodes nodes (suc i) (set ids node.id i)

-- The vertices of an edge, when it passes every test of the loop.
unfoldable pub resolve_edge : List PatcherNode → List ℕ → PatcherEdge → Option (ℕ × ℕ)
resolve_edge nodes ids e =
    let s = get_or ids e.src.node_id invalid_node_index in
    let d = get_or ids e.dst.node_id invalid_node_index in
    if not (ltb e.src.node_id (length ids)) || not (ltb e.dst.node_id (length ids))
    then none
    else if s == invalid_node_index || (d == invalid_node_index)
    then none
    else elim (get_elem? nodes s) [
      | none ↦ none
      | some a ↦ elim (get_elem? nodes d) [
        | none ↦ none
        | some b ↦ if is_valid_edge a.type b.type e then some (s, d) else none
      ]
    ]

pub record Linked : Type 0 where
  pub inputs : List (List ℕ)
  pub dag : List (ℕ × ℕ)

-- `boost::add_edge`, and the source of an event edge among the target's inputs.
abbrev pub link : PatcherPortKind → ℕ × ℕ → Linked → Linked
link kind v l = record {
  inputs =
      if same_kind kind PatcherPortKind.event
      then set l.inputs v.1 (get_or l.inputs v.1 [] ++ (v.0 ∷ []))
      else l.inputs;
  dag = l.dag ++ (v ∷ []);
}

unfoldable pub link_edges : List PatcherNode → List ℕ → List PatcherEdge → Linked → Bool × Linked
link_edges nodes ids [] l = (true, l)
link_edges nodes ids (e ∷ es) l = elim (resolve_edge nodes ids e) [
  | none ↦ (false, l)
  | some v ↦ link_edges nodes ids es (link e.kind v l)
]

-- The depths and maxDepth.
pub record Depths : Type 0 where
  pub at : List ℕ
  pub top : ℕ

abbrev pub raise : ℕ → ℕ → Depths → Depths
raise base t d =
    if ltb (get_or d.at t 0) (base + 1)
    then (let deeper = (base + 1) % 65536 in
        record { at = set d.at t deeper; top = max d.top deeper })
    else d

abbrev pub raise_all : ℕ → List ℕ → Depths → Depths
raise_all base [] d = d
raise_all base (t ∷ ts) d = raise_all base ts (raise base t d)

-- The pass over topoOrder.
unfoldable pub settle : (ℕ → List ℕ) → List ℕ → Depths → Depths
settle out [] d = d
settle out (u ∷ us) d =
    let base = get_or d.at u 0 in
    settle out us (raise_all base (out u) (record d { top = max d.top base }))

-- `nodes[i].depth = depths[i]` from position `i` on.
abbrev pub store_depths : List ℕ → ℕ → List PatcherNode → List PatcherNode
store_depths depths i [] = []
store_depths depths i (node ∷ nodes) =
    record node { depth = get_or depths i 0 } ∷ store_depths depths (suc i) nodes

module _ (sort : ℕ → List (ℕ × ℕ) → Option (List ℕ)) (out_edges : List (ℕ × ℕ) → ℕ → List ℕ) where
  -- What follows a sort that found no cycle. The sort's output is in reverse.
  abbrev pub order_nodes : PatcherGraph → List (ℕ × ℕ) → List ℕ → Bool × PatcherGraph
  order_nodes g dag ts =
      let d = settle (out_edges dag) (reverse ts) (record { at = g.depths; top = g.max_depth }) in
      (
        length (reverse ts) == length g.nodes,
        record g {
          topo_order = reverse ts;
          depths = d.at;
          max_depth = d.top;
          nodes = store_depths d.at 0 g.nodes;
        },
      )

  abbrev pub sort_nodes : PatcherGraph → List (ℕ × ℕ) → Bool × PatcherGraph
  sort_nodes g dag = elim (sort (length g.nodes) dag) [
    | none ↦ (false, g)
    | some ts ↦ order_nodes g dag ts
  ]

  abbrev pub link_graph : PatcherGraph → Bool × PatcherGraph
  link_graph g =
      let l =
        link_edges g.nodes g.id_to_index g.edges
          (record { inputs = g.resolved_inputs; dag = [] }) in
      let linked = record g { resolved_inputs = l.1.inputs } in
      if l.0 then sort_nodes linked l.1.dag else (false, linked)

  abbrev pub is_empty : List PatcherEdge → Bool
  is_empty [] = true
  is_empty (e ∷ es) = false

  unfoldable pub build_patcher_graph : PatcherGraph → Bool × PatcherGraph
  unfolding index_nodes resolve_edge link_edges settle is_valid_edge
  build_patcher_graph g =
      let ids = replicate (suc (max_node_id g.nodes)) invalid_node_index in
      let indexed = index_nodes g.nodes 0 ids in
      if ltb patcher_max_nodes (length g.nodes)
      then (false, cleared g)
      else if length g.nodes == 0
      then (is_empty g.edges, cleared g)
      else if indexed.0
      then link_graph (record (cleared g) { id_to_index = indexed.1 })
      else (false, record (cleared g) { id_to_index = indexed.1 })
