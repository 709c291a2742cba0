-- ===== src/Graph/Run.antt =====
-- Sequences of the edits of a PatcherGraphState (apps/patcher_graph.cpp).
use unidaw.Base.{ℕ, List, [], ◌∷◌, true, Option, refl}
use unidaw.Abi.{PatcherEuclideanConfig, PatcherLfoConfig, PatcherRandomDegreeConfig}
use unidaw.Graph.{PatcherNodeType, PatcherEdge}
use unidaw.Graph.Edits.{
  PatcherGraphState, add_patcher_node, connect_patcher_nodes, remove_patcher_node,
  set_euclidean_config, set_lfo_config, set_random_degree_config, is_euclidean, is_lfo,
  is_random_degree,
}
use unidaw.Graph.Usable.{
  IsUsable, add_patcher_node-IsUsable, connect_patcher_nodes-IsUsable, remove_patcher_node-IsUsable,
  configure-IsUsable,
}

-- The calls of patcher_graph.h that change a state.
pub data GraphEdit : Type 0 where
  add : PatcherNodeType → GraphEdit
  connect : PatcherEdge → GraphEdit
  remove : ℕ → GraphEdit
  euclidean_config : ℕ → PatcherEuclideanConfig → GraphEdit
  lfo_config : ℕ → PatcherLfoConfig → GraphEdit
  random_degree_config : ℕ → PatcherRandomDegreeConfig → GraphEdit

module _ (sort : ℕ → List (ℕ × ℕ) → Option (List ℕ)) (out_edges : List (ℕ × ℕ) → ℕ → List ℕ) where
  abbrev pub run : GraphEdit → PatcherGraphState → PatcherGraphState
  run (GraphEdit.add type) s = (add_patcher_node sort out_edges s type).1
  run (GraphEdit.connect e) s = (connect_patcher_nodes sort out_edges s e).1
  run (GraphEdit.remove id) s = (remove_patcher_node sort out_edges s id).1
  run (GraphEdit.euclidean_config id c) s = (set_euclidean_config s id c).1
  run (GraphEdit.lfo_config id c) s = (set_lfo_config s id c).1
  run (GraphEdit.random_degree_config id c) s = (set_random_degree_config s id c).1

  pub run_all : List GraphEdit → PatcherGraphState → PatcherGraphState
  run_all [] s = s
  run_all (e ∷ es) s = run_all es (run e s)

  pub run-IsUsable :
      (e : GraphEdit) (s : PatcherGraphState) → IsUsable s.graph → IsUsable (run e s).graph
  unfolding set_euclidean_config set_lfo_config set_random_degree_config
  run-IsUsable (GraphEdit.add type) s h = add_patcher_node-IsUsable sort out_edges s type h
  run-IsUsable (GraphEdit.connect e) s h = connect_patcher_nodes-IsUsable sort out_edges s e h
  run-IsUsable (GraphEdit.remove id) s h = remove_patcher_node-IsUsable sort out_edges s id h
  run-IsUsable (GraphEdit.euclidean_config id c) s h =
      configure-IsUsable s id is_euclidean
        (λ n. record n { has_euclidean_config = true; euclidean_config = c }) (λ n. refl) h
  run-IsUsable (GraphEdit.lfo_config id c) s h =
      configure-IsUsable s id is_lfo (λ n. record n { has_lfo_config = true; lfo_config = c })
        (λ n. refl) h
  run-IsUsable (GraphEdit.random_degree_config id c) s h =
      configure-IsUsable s id is_random_degree
        (λ n. record n { has_random_degree_config = true; random_degree_config = c }) (λ n. refl) h

  -- After any sequence of edits, refused ones included, of a graph whose ids are distinct and whose
  -- edges are accepted by isValidEdge between nodes of the graph, the graph is such a graph. Nothing
  -- is assumed of the sort.
  pub run_all-IsUsable :
      (es : List GraphEdit) (s : PatcherGraphState)
      → IsUsable s.graph
      → IsUsable (run_all es s).graph
  unfolding run_all
  run_all-IsUsable [] s h = h
  run_all-IsUsable (e ∷ es) s h = run_all-IsUsable es (run e s) (run-IsUsable e s h)
