-- ===== src/Engine/Patched.antt =====
-- The commands for the patcher graph keep the engine sound.
use unidaw.Base.{
  ℕ, ◌≡◌, refl, Bool, true, false, List, Option, none, some, inl, inr, Bool-cases, subst,
  if◌then◌else◌, ltb, ◌==◌,
}
use unidaw.Base.Words.{u32_max}
use unidaw.Graph.Edits.{
  PatcherGraphState, PatcherConnectResult, add_patcher_node, remove_patcher_node,
  connect_patcher_nodes, set_euclidean_config, set_lfo_config, set_random_degree_config,
}
use unidaw.Graph.Usable.{IsUsable}
use unidaw.Graph.Run.{GraphEdit, run, run-IsUsable}
use unidaw.Payload.Commands.{UiPatcherGraphCommandPayload, UiPatcherNodeConfigPayload}
use unidaw.Engine.{Engine}
use unidaw.Engine.Patcher.{
  put_graph, update_patcher_graph_snapshot, emit_patcher_graph_delta, emit_patcher_graph_error,
  node_error, edge_error, node_type, asked_edge, connect_error_code, add_node, remove_node,
  connect_nodes, read_euclidean, read_random_degree, read_lfo, set_node_config,
}
use unidaw.Engine.Sound.{IsSound, same-IsSound}
use unidaw.Engine.Replays.{Keeps}
use unidaw.Engine.Tracks.{send-IsSound}

either : {x y : Engine} (b : Bool) → IsSound x → IsSound y → IsSound (if b then x else y)
either true h k = h
either false h k = k

error-IsSound :
    (code track node src dst src_port dst_port kind : ℕ)
    → Keeps (emit_patcher_graph_error code track node src dst src_port dst_port kind)
unfolding emit_patcher_graph_error
error-IsSound code track node src dst src_port dst_port kind = send-IsSound _

put_graph-IsSound :
    (g : PatcherGraphState) (e : Engine) → IsUsable g.graph → IsSound e → IsSound (put_graph g e)
put_graph-IsSound g e h s = record {
  timeline = s.timeline;
  tracks = s.tracks;
  graph = h;
  graph_published = s.graph_published;
}

-- A graph is stored, published and announced.
done-IsSound :
    (g : PatcherGraphState) (e : Engine) (track flags node type src dst src_port dst_port kind : ℕ)
    → IsUsable g.graph
    → IsSound e
    → IsSound (
        emit_patcher_graph_delta track flags node type src dst src_port dst_port kind
          (update_patcher_graph_snapshot (put_graph g e)))
unfolding emit_patcher_graph_delta update_patcher_graph_snapshot
done-IsSound g e track flags node type src dst src_port dst_port kind h s =
    either e.ui_open (send-IsSound _ _ (same-IsSound {e = published} refl refl refl refl kept)) kept
  where
    published : Engine
    published = record (put_graph g e) { patcher_graph_snapshot = g.graph }

    kept : IsSound published
    kept = record { timeline = s.timeline; tracks = s.tracks; graph = h; graph_published = h }

module _ (sort : ℕ → List (ℕ × ℕ) → Option (List ℕ)) (out_edges : List (ℕ × ℕ) → ℕ → List ℕ) where
  pub add_node-IsSound : (p : UiPatcherGraphCommandPayload) → Keeps (add_node sort out_edges p)
  unfolding add_node
  add_node-IsSound p e s = either (ltb 6 p.node_type) (error-IsSound _ _ _ _ _ _ _ _ e s) (
      either (added.0 == u32_max)
        (error-IsSound _ _ _ _ _ _ _ _ _ (put_graph-IsSound added.1 e usable s))
        (done-IsSound added.1 e _ _ _ _ _ _ _ _ _ usable s))
    where
      added : ℕ × PatcherGraphState
      added = add_patcher_node sort out_edges e.patcher_graph_state (node_type p.node_type)

      usable : IsUsable added.1.graph
      usable =
          run-IsUsable sort out_edges (GraphEdit.add (node_type p.node_type)) e.patcher_graph_state
            s.graph

  pub remove_node-IsSound :
      (p : UiPatcherGraphCommandPayload) → Keeps (remove_node sort out_edges p)
  unfolding remove_node
  remove_node-IsSound p e s =
      either removed.0 (done-IsSound removed.1 e _ _ _ _ _ _ _ _ _ usable s)
        (error-IsSound _ _ _ _ _ _ _ _ _ (put_graph-IsSound removed.1 e usable s))
    where
      removed : Bool × PatcherGraphState
      removed = remove_patcher_node sort out_edges e.patcher_graph_state p.node_id

      usable : IsUsable removed.1.graph
      usable =
          run-IsUsable sort out_edges (GraphEdit.remove p.node_id) e.patcher_graph_state s.graph

  pub connect_nodes-IsSound :
      (p : UiPatcherGraphCommandPayload) → Keeps (connect_nodes sort out_edges p)
  unfolding connect_nodes
  connect_nodes-IsSound p e s = either (ltb 2 p.edge_kind) (error-IsSound _ _ _ _ _ _ _ _ e s) (
      either (p.src_node_id == p.dst_node_id) (error-IsSound _ _ _ _ _ _ _ _ e s)
        (outcome (connect_error_code connected.0)))
    where
      connected : PatcherConnectResult × PatcherGraphState
      connected = connect_patcher_nodes sort out_edges e.patcher_graph_state (asked_edge p)

      usable : IsUsable connected.1.graph
      usable =
          run-IsUsable sort out_edges (GraphEdit.connect (asked_edge p)) e.patcher_graph_state
            s.graph

      outcome :
          (code : Option ℕ)
          → IsSound (elim code [
            | some code ↦ edge_error code p (put_graph connected.1 e)
            | none ↦
                emit_patcher_graph_delta p.track_id 2 0 0 p.src_node_id p.dst_node_id p.src_port_id
                  p.dst_port_id p.edge_kind
                  (update_patcher_graph_snapshot (put_graph connected.1 e))
          ])
      outcome (some code) =
          error-IsSound _ _ _ _ _ _ _ _ _ (put_graph-IsSound connected.1 e usable s)
      outcome none = done-IsSound connected.1 e _ _ _ _ _ _ _ _ _ usable s

  pub set_node_config-IsSound : (p : UiPatcherNodeConfigPayload) → Keeps (set_node_config p)
  unfolding set_node_config
  set_node_config-IsSound p e s = elim (Bool-cases (p.config_type == 1)) [
    | inl y ↦
        rw (y, set_node_config)
          (finish (GraphEdit.euclidean_config p.node_id (read_euclidean p.config))
            (set_euclidean_config state p.node_id (read_euclidean p.config)) refl)
    | inr n ↦ elim (Bool-cases (p.config_type == 5)) [
      | inl y ↦
          rw (n, y, set_node_config)
            (finish (GraphEdit.random_degree_config p.node_id (read_random_degree p.config))
              (set_random_degree_config state p.node_id (read_random_degree p.config)) refl)
      | inr m ↦ elim (Bool-cases (p.config_type == 4)) [
        | inl y ↦
            rw (n, m, y, set_node_config)
              (finish (GraphEdit.lfo_config p.node_id (read_lfo p.config))
                (set_lfo_config state p.node_id (read_lfo p.config)) refl)
        | inr k ↦ rw (n, m, k, set_node_config) (error-IsSound _ _ _ _ _ _ _ _ e s)
      ]
    ]
  ]
    where
      state : PatcherGraphState
      state = e.patcher_graph_state

      finish :
          (edit : GraphEdit) (out : Bool × PatcherGraphState)
          → run sort out_edges edit state ≡ out.1
          → IsSound (
              if out.0
              then emit_patcher_graph_delta p.track_id 3 p.node_id p.config_type 0 0 0 0 0
                  (update_patcher_graph_snapshot (put_graph out.1 e))
              else node_error 2 p.track_id p.node_id (put_graph out.1 e))
      finish edit out same =
          let usable =
            subst (λ g. IsUsable g.graph) same (run-IsUsable sort out_edges edit state s.graph) in
          either out.0 (done-IsSound out.1 e _ _ _ _ _ _ _ _ _ usable s)
            (error-IsSound _ _ _ _ _ _ _ _ _ (put_graph-IsSound out.1 e usable s))
