-- ===== src/Graph/Ports.antt =====
-- isValidEdge of apps/patcher_graph.cpp against the wires that exist between nodes.
use unidaw.Base.{ℕ, ◌≡◌, Bool, true, false, ◌&&◌, ◌==◌, arith}
use unidaw.Graph.{
  PatcherNodeType, PatcherPortKind, PatcherEdge, is_valid_edge, node_accepts_event_input,
  node_provides_event_output, event_input_port, event_output_port, control_input_port,
  control_output_port, audio_input_port, audio_output_port,
}

abbrev is_rust_kernel : PatcherNodeType → Bool
is_rust_kernel PatcherNodeType.rust_kernel = true
is_rust_kernel _ = false

abbrev is_audio_passthrough : PatcherNodeType → Bool
is_audio_passthrough PatcherNodeType.audio_passthrough = true
is_audio_passthrough _ = false

-- Events from a source of events to a taker of events, audio between audio passthroughs, control
-- values between kernels, each from its output port to its input port.
pub is_wire : PatcherNodeType → PatcherNodeType → ℕ → ℕ → PatcherPortKind → Bool
is_wire src dst from to PatcherPortKind.event =
    (node_provides_event_output src && (from == event_output_port))
    && (node_accepts_event_input dst && (to == event_input_port))
is_wire src dst from to PatcherPortKind.audio =
    (is_audio_passthrough src && (from == audio_output_port))
    && (is_audio_passthrough dst && (to == audio_input_port))
is_wire src dst from to PatcherPortKind.control =
    (is_rust_kernel src && (from == control_output_port))
    && (is_rust_kernel dst && (to == control_input_port))

-- isValidEdge accepts exactly the event wires from sources to takers of events, the audio wires
-- between audio passthroughs and the control wires between kernels, each from output port to input
-- port.
pub is_valid_edge_lem :
    (src dst : PatcherNodeType) (e : PatcherEdge)
    → is_valid_edge src dst e ≡ is_wire src dst e.src.port_id e.dst.port_id e.kind
unfolding is_valid_edge is_wire
is_valid_edge_lem PatcherNodeType.rust_kernel dst e = ground arith
is_valid_edge_lem PatcherNodeType.euclidean dst e = ground arith
is_valid_edge_lem PatcherNodeType.passthrough dst e = ground arith
is_valid_edge_lem PatcherNodeType.audio_passthrough dst e = ground arith
is_valid_edge_lem PatcherNodeType.lfo dst e = ground arith
is_valid_edge_lem PatcherNodeType.random_degree dst e = ground arith
is_valid_edge_lem PatcherNodeType.event_out dst e = ground arith
