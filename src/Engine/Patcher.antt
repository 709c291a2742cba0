-- ===== src/Engine/Patcher.antt =====
-- apps/daw_engine_main.cpp: the commands for the patcher graph that all tracks share.
use unidaw.Base.{ℕ, ◌+◌, ◌*◌, ◌^◌, Bool, List, Option, none, some, ltb, ◌==◌, if◌then◌else◌, get_or}
use unidaw.Base.Words.{add32, u32_max}
use unidaw.Abi.{
  PatcherEuclideanConfig, PatcherLfoConfig, PatcherRandomDegreeConfig, default_euclidean,
}
use unidaw.Graph.{PatcherNodeType, PatcherPortKind, PatcherEdge}
use unidaw.Graph.Edits.{
  PatcherGraphState, PatcherConnectResult, add_patcher_node, remove_patcher_node,
  connect_patcher_nodes, set_euclidean_config, set_lfo_config, set_random_degree_config,
}
use unidaw.Payload.{UiDiffType}
use unidaw.Payload.Commands.{UiPatcherGraphCommandPayload, UiPatcherNodeConfigPayload}
use unidaw.Engine.{Engine, UiMessage, send}

unfoldable pub update_patcher_graph_snapshot : Engine → Engine
update_patcher_graph_snapshot e = record e { patcher_graph_snapshot = e.patcher_graph_state.graph }

-- The version counts only where the ring of the UI is there.
unfoldable pub emit_patcher_graph_delta :
    (track_id flags node_id node_type src_node_id dst_node_id src_port_id dst_port_id edge_kind : ℕ)
    → Engine
    → Engine
emit_patcher_graph_delta track_id flags node_id node_type src_node_id dst_node_id src_port_id
      dst_port_id edge_kind e =
    let version = add32 e.patcher_graph_version 1 in
    if e.ui_open
    then send
        (UiMessage.graph_diff (record {
          diff_type = UiDiffType.patcher_graph_delta;
          flags = flags;
          track_id = track_id;
          graph_version = version;
          node_id = node_id;
          node_type = node_type;
          src_node_id = src_node_id;
          dst_node_id = dst_node_id;
          src_port_id = src_port_id;
          dst_port_id = dst_port_id;
          edge_kind = edge_kind;
        }))
        (record e { patcher_graph_version = version })
    else e

unfoldable pub emit_patcher_graph_error :
    (error_code track_id node_id src_node_id dst_node_id src_port_id dst_port_id edge_kind : ℕ)
    → Engine
    → Engine
emit_patcher_graph_error error_code track_id node_id src_node_id dst_node_id src_port_id dst_port_id
      edge_kind e =
    send
      (UiMessage.graph_error (record {
        diff_type = UiDiffType.patcher_graph_error;
        error_code = error_code;
        track_id = track_id;
        node_id = node_id;
        src_node_id = src_node_id;
        dst_node_id = dst_node_id;
        src_port_id = src_port_id;
        dst_port_id = dst_port_id;
        edge_kind = edge_kind;
      }))
      e

-- The casts of numbers that have been checked against the last enumerator.
abbrev pub node_type : ℕ → PatcherNodeType
node_type n =
    if n == 0
    then PatcherNodeType.rust_kernel
    else if n == 1
    then PatcherNodeType.euclidean
    else if n == 2
    then PatcherNodeType.passthrough
    else if n == 3
    then PatcherNodeType.audio_passthrough
    else if n == 4
    then PatcherNodeType.lfo
    else if n == 5
    then PatcherNodeType.random_degree
    else PatcherNodeType.event_out

abbrev pub port_kind : ℕ → PatcherPortKind
port_kind n =
    if n == 0
    then PatcherPortKind.event
    else if n == 1
    then PatcherPortKind.audio
    else PatcherPortKind.control

abbrev pub asked_edge : UiPatcherGraphCommandPayload → PatcherEdge
asked_edge p = record {
  src = record { node_id = p.src_node_id; port_id = p.src_port_id };
  dst = record { node_id = p.dst_node_id; port_id = p.dst_port_id };
  kind = port_kind p.edge_kind;
}

abbrev pub edge_error : ℕ → UiPatcherGraphCommandPayload → Engine → Engine
edge_error code p e =
    emit_patcher_graph_error code p.track_id 0 p.src_node_id p.dst_node_id p.src_port_id
      p.dst_port_id p.edge_kind e

abbrev pub node_error : ℕ → (track_id node_id : ℕ) → Engine → Engine
node_error code track_id node_id e = emit_patcher_graph_error code track_id node_id 0 0 0 0 0 e

abbrev pub put_graph : PatcherGraphState → Engine → Engine
put_graph s e = record e { patcher_graph_state = s }

abbrev pub connect_error_code : PatcherConnectResult → Option ℕ
connect_error_code PatcherConnectResult.ok = none
connect_error_code PatcherConnectResult.invalid_node = some 2
connect_error_code PatcherConnectResult.invalid_port = some 6
connect_error_code PatcherConnectResult.invalid_connection = some 5
connect_error_code PatcherConnectResult.cycle = some 3

module _ (sort : ℕ → List (ℕ × ℕ) → Option (List ℕ)) (out_edges : List (ℕ × ℕ) → ℕ → List ℕ) where
  unfoldable pub add_node : UiPatcherGraphCommandPayload → Engine → Engine
  add_node p e =
      let (id, s) = add_patcher_node sort out_edges e.patcher_graph_state (node_type p.node_type) in
      if ltb 6 p.node_type
      then node_error 1 p.track_id p.node_id e
      else if id == u32_max
      then node_error 4 p.track_id p.node_id (put_graph s e)
      else (emit_patcher_graph_delta p.track_id 0 id p.node_type 0 0 0 0 0
          (update_patcher_graph_snapshot (put_graph s e)))

  unfoldable pub remove_node : UiPatcherGraphCommandPayload → Engine → Engine
  remove_node p e =
      let (removed, s) = remove_patcher_node sort out_edges e.patcher_graph_state p.node_id in
      if removed
      then emit_patcher_graph_delta p.track_id 1 p.node_id 0 0 0 0 0 0
          (update_patcher_graph_snapshot (put_graph s e))
      else node_error 2 p.track_id p.node_id (put_graph s e)

  unfoldable pub connect_nodes : UiPatcherGraphCommandPayload → Engine → Engine
  connect_nodes p e =
      let (result, s) = connect_patcher_nodes sort out_edges e.patcher_graph_state (asked_edge p) in
      if ltb 2 p.edge_kind
      then edge_error 5 p e
      else if p.src_node_id == p.dst_node_id
      then edge_error 2 p e
      else elim (connect_error_code result) [
        | some code ↦ edge_error code p (put_graph s e)
        | none ↦
            emit_patcher_graph_delta p.track_id 2 0 0 p.src_node_id p.dst_node_id p.src_port_id
              p.dst_port_id p.edge_kind (update_patcher_graph_snapshot (put_graph s e))
      ]

-- The 32 bits at a place of a field, on a little-endian machine.
abbrev pub word_at : List ℕ → ℕ → ℕ
word_at bytes i =
    get_or bytes i 0
    + get_or bytes (i + 1) 0 * 2 ^ 8
    + get_or bytes (i + 2) 0 * 2 ^ 16
    + get_or bytes (i + 3) 0 * 2 ^ 24

-- `memcpy` of the 16 bytes over a default configuration. That of a Euclidean node has 32 bytes, of
-- which its three counts, at 0, 4 and 8, come from the command.
abbrev pub read_euclidean : List ℕ → PatcherEuclideanConfig
read_euclidean bytes = record default_euclidean {
  steps = word_at bytes 0;
  hits = word_at bytes 4;
  offset = word_at bytes 8;
}

abbrev pub read_random_degree : List ℕ → PatcherRandomDegreeConfig
read_random_degree bytes = record {
  degree = get_or bytes 0 0;
  velocity = get_or bytes 1 0;
  duration_ticks = word_at bytes 8 + word_at bytes 12 * 2 ^ 32;
}

abbrev pub read_lfo : List ℕ → PatcherLfoConfig
read_lfo bytes = record {
  frequency_hz = word_at bytes 0;
  depth = word_at bytes 4;
  bias = word_at bytes 8;
  phase_offset = word_at bytes 12;
}

-- The setter that the type of the configuration selects.
abbrev pub set_config :
    UiPatcherNodeConfigPayload → PatcherGraphState → Option (Bool × PatcherGraphState)
set_config p s =
    if p.config_type == 1
    then some (set_euclidean_config s p.node_id (read_euclidean p.config))
    else if p.config_type == 5
    then some (set_random_degree_config s p.node_id (read_random_degree p.config))
    else if p.config_type == 4
    then some (set_lfo_config s p.node_id (read_lfo p.config))
    else none

unfoldable pub set_node_config : UiPatcherNodeConfigPayload → Engine → Engine
set_node_config p e = elim (set_config p e.patcher_graph_state) [
  | none ↦ node_error 1 p.track_id p.node_id e
  | some (updated, s) ↦
      if updated
      then emit_patcher_graph_delta p.track_id 3 p.node_id p.config_type 0 0 0 0 0
          (update_patcher_graph_snapshot (put_graph s e))
      else node_error 2 p.track_id p.node_id (put_graph s e)
]
