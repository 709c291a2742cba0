-- ===== src/Graph/Longest.antt =====
-- buildPatcherGraph of apps/patcher_graph.cpp: what its derived fields are when it succeeds.
use mathlib.Core.List.{Memᴰ, reverse}
use unidaw.Base.{
  ℕ, suc, ◌≤◌, ◌<◌, ◌≡◌, ◌↔◌, refl, inl, inr, List, [], length, get_or, get_elem?, ◌==◌, Bool, true,
  false, Option, some, ltb, replicate, Bool-cases, Option-cases, arith, subst, ap, sym, ◌∙◌,
}
use unidaw.Graph.{PatcherNode, PatcherGraph, patcher_max_nodes}
use unidaw.Graph.Build.{
  invalid_node_index, max_node_id, index_nodes, Linked, link_edges, Depths, settle, store_depths,
  build_patcher_graph, sort_nodes,
}
use unidaw.Graph.Relax.{IsTop}
use unidaw.Graph.Depth.{IsOrder, IsLongest, settle-IsLongest}
use unidaw.Graph.Built.{edge_indices, index_nodes_finds, link_edges-dag, link_edges_ends}

-- What a topological sort of `n` vertices writes: every vertex once, in reverse order.
abbrev pub IsSortOf : ℕ → List (ℕ × ℕ) → List ℕ → Type 0
IsSortOf n es ts =
    IsOrder es (reverse ts) × (length (reverse ts) ≡ n) × ((v : ℕ) → v < n → Memᴰ v (reverse ts))

not_empty : (n : ℕ) → 0 < n → (n == 0) ≡ false
not_empty n h = ground arith

abbrev pub table : PatcherGraph → Bool × List ℕ
table g = index_nodes g.nodes 0 (replicate (suc (max_node_id g.nodes)) invalid_node_index)

-- The graph `h` that the call on `g` leaves: its table finds every node, the order has every position
-- once and the source of an edge before its target, the depth at a position is the length of the longest path to it, and the nodes hold their depths.
pub record IsBuilt (g h : PatcherGraph) : Type 0 where
  pub edges_kept : h.edges ≡ g.edges
  pub finds :
      (i : ℕ) (node : PatcherNode)
      → get_elem? g.nodes i ≡ some node
      → get_or h.id_to_index node.id invalid_node_index ≡ i
  pub as_many : length h.topo_order ≡ length g.nodes
  pub every : (v : ℕ) → v < length g.nodes → Memᴰ v h.topo_order
  pub order : IsOrder (edge_indices h.id_to_index g.edges) h.topo_order
  pub longest : (i : ℕ) → IsLongest (edge_indices h.id_to_index g.edges) i (get_or h.depths i 0)
  pub deepest : IsTop (record { at = h.depths; top = h.max_depth })
  pub stored : h.nodes ≡ store_depths h.depths 0 g.nodes

module _ (sort : ℕ → List (ℕ × ℕ) → Option (List ℕ)) (out_edges : List (ℕ × ℕ) → ℕ → List ℕ) where
  abbrev dag : PatcherGraph → List (ℕ × ℕ)
  dag g = edge_indices (table g).1 g.edges

  abbrev links : PatcherGraph → Bool × Linked
  links g =
      link_edges g.nodes (table g).1 g.edges
        (record { inputs = replicate (length g.nodes) []; dag = [] })

  -- The stages of a call that succeeds on a graph with nodes.
  pub record Stages (g : PatcherGraph) (h : PatcherGraph) : Type 0 where
    pub few : length g.nodes ≤ 1024
    pub indexed : (table g).0 ≡ true
    linked : (links g).0 ≡ true
    ts : List ℕ
    sorted : sort (length g.nodes) (dag g) ≡ some ts
    ids : h.id_to_index ≡ (table g).1
    edges_same : h.edges ≡ g.edges
    topo : h.topo_order ≡ reverse ts
    settled :
        record { at = h.depths; top = h.max_depth }
        ≡ settle
            (out_edges (dag g))
            (reverse ts)
            (record { at = replicate (length g.nodes) 0; top = 0 })
    stored : h.nodes ≡ store_depths h.depths 0 g.nodes

  pub stages :
      (g : PatcherGraph)
      → (build_patcher_graph sort out_edges g).0 ≡ true
      → 0 < length g.nodes
      → Stages g (build_patcher_graph sort out_edges g).1
  unfolding build_patcher_graph
  stages g ok some_node = elim (Bool-cases (ltb patcher_max_nodes (length g.nodes))) [
    | inl many ↦ ground arith
    | inr few ↦ elim (Bool-cases (table g).0) [
      | inr clash ↦ ground arith
      | inl indexed ↦ elim (Bool-cases (links g).0) [
        | inr bad ↦ ground arith
        | inl linked ↦ elim (Option-cases (sort (length g.nodes) (links g).1.dag)) [
          | inl cyclic ↦ ground arith
          | inr (ts, sorted) ↦
              let some_nodes = not_empty (length g.nodes) some_node in
              let e =
                link_edges-dag g.nodes (table g).1 g.edges
                  (record { inputs = replicate (length g.nodes) []; dag = [] }) linked in
              rw (few, some_nodes, indexed, linked, sorted, sort_nodes)
                record {
                  few = ground arith;
                  indexed = indexed;
                  linked = linked;
                  ts = ts;
                  sorted = subst (λ d. sort (length g.nodes) d ≡ some ts) e sorted;
                  ids = refl;
                  edges_same = refl;
                  topo = refl;
                  settled =
                      ap
                        (λ d.
                          settle (out_edges d) (reverse ts)
                            (record { at = replicate (length g.nodes) 0; top = 0 }))
                        e;
                  stored = refl;
                }
        ]
      ]
    ]
  ]

  -- When buildPatcherGraph returns true on a graph with nodes, its index table finds every node at
  -- its position, topoOrder has every position once and is a topological order, the depth at each position is the length of
  -- the longest path of edges that ends there, maxDepth is the greatest depth, the nodes hold
  -- their depths, and the edges are untouched. Of boost, the call's sort is a sort of the call's
  -- graph, and out_edges lists the targets of a vertex.
  pub build_patcher_graph-IsBuilt :
      (g : PatcherGraph)
      → ((u v : ℕ) → Memᴰ v (out_edges (dag g) u) ↔ Memᴰ (u, v) (dag g))
      → ((ts : List ℕ)
          → sort (length g.nodes) (dag g) ≡ some ts
          → IsSortOf (length g.nodes) (dag g) ts)
      → 0 < length g.nodes
      → (build_patcher_graph sort out_edges g).0 ≡ true
      → IsBuilt g (build_patcher_graph sort out_edges g).1
  build_patcher_graph-IsBuilt g out_iff sorts some_node ok =
      let s = stages g ok some_node in
      let order = sorts s.ts s.sorted in
      let ends =
        link_edges_ends g.nodes (table g).1 g.edges
          (record { inputs = replicate (length g.nodes) []; dag = [] }) s.linked in
      let result =
        settle-IsLongest (length g.nodes) s.few (dag g) (out_edges (dag g)) out_iff
          (λ u v m. (ends u v m).1) (reverse s.ts) order.0 (omega (arith, order.1)) order.2
          (λ u v m. (ends u v m).0) in
      let h = (build_patcher_graph sort out_edges g).1 in
      let here =
        λ (P : List (ℕ × ℕ) → Depths → Type 0)
            (p : P (dag g) (
              settle (out_edges (dag g)) (reverse s.ts)
                (record { at = replicate (length g.nodes) 0; top = 0 }))).
          subst (λ ids. P (edge_indices ids g.edges) (record { at = h.depths; top = h.max_depth }))
            (sym s.ids) (subst (P (dag g)) (sym s.settled) p) in
      record {
        edges_kept = s.edges_same;
        finds = λ i node e. omega (
          arith,
          ap (λ t. get_or t node.id invalid_node_index) s.ids,
          index_nodes_finds g.nodes 0 (replicate (suc (max_node_id g.nodes)) invalid_node_index) i
              {node = node} (omega (arith, s.few)) s.indexed e,
        );
        as_many = ap length s.topo ∙ order.1;
        every = λ v small. subst (λ xs. Memᴰ v xs) (sym s.topo) (order.2 v small);
        order =
            subst (λ ids. IsOrder (edge_indices ids g.edges) h.topo_order) (sym s.ids)
              (subst (IsOrder (dag g)) (sym s.topo) order.0);
        longest = here (λ es d. (i : ℕ) → IsLongest es i (get_or d.at i 0)) result.0;
        deepest = here (λ es d. IsTop d) result.1;
        stored = s.stored;
      }
