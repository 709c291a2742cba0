-- ===== src/Engine/Tests.antt =====
-- Commands on an engine with a track that holds one note, and one harmony event.
use unidaw.Base.{
  ℕ, ◌^◌, ◌≤◌, ◌<◌, ◌≡◌, ◌⊎◌, refl, true, false, List, [], ◌∷◌, none, Option, some, replicate,
  arith,
}
use unidaw.Base.Count.{count}
use unidaw.Clip.{MusicalClip}
use unidaw.Clip.Cells.{CellsUnique}
use unidaw.Chain.{default_track_chain}
use unidaw.Graph.{PatcherGraph}
use unidaw.Routing.{default_track_routing}
use unidaw.Modulation.{ModRate, ModSourceKind, ModTargetKind, ModLink}
use unidaw.Edit.{note_event}
use unidaw.Payload.Commands.{
  UiCommandPayload, UiChordCommandPayload, UiChainCommandPayload, UiPatcherGraphCommandPayload,
}
use unidaw.Engine.{Engine, Track, build_clip_snapshot, build_track_snapshot}
use unidaw.Engine.Commands
use unidaw.Engine.Commands.{set_loop_range}
use unidaw.Engine.Handle.{UiCommand, handle_ui_entry, run_commands}
use unidaw.Engine.ModFlags.{
  decode_source_kind, decode_target_kind, decode_rate, decode_enabled, encode_flags,
}
use unidaw.Engine.Timeline.{IsTimeline}
use unidaw.Engine.Sound.{IsSound}
use unidaw.Engine.Safe.{Publishes, run_commands-IsSound}
use unidaw.Engine.Chains.{ChainCommand}
use unidaw.Engine.Stale.{resync_clip, resync_harmony}
use unidaw.Engine.Lost.{SongEdit, no_lost_edit}
use unidaw.Engine.LostHarmony.{HarmonyChange, HarmonyEdit, no_lost_harmony}
use unidaw.Engine.Laws.{Rewound, decode-encode, set_loop_range_lem}

abbrev pub clip : MusicalClip
clip = record { events = note_event 10 0 60 80 0 1 ∷ []; next_note_id = 2 }

abbrev track : Track
track = record {
  clip = clip;
  automation_clips = [];
  harmony_quantize = true;
  chain = default_track_chain;
  routing = default_track_routing;
  mod_registry = record { sources = []; links = [] };
}

abbrev graph : PatcherGraph
graph = record {
  nodes = [];
  edges = [];
  topo_order = [];
  depths = [];
  resolved_inputs = [];
  id_to_index = [];
  max_depth = 0;
}

abbrev pub engine : Engine
engine = record {
  tracks =
      record {
        track_id = 0;
        track = track;
        clip_snapshot = build_clip_snapshot clip;
        track_snapshot = build_track_snapshot track;
        plugin_paths = [];
        needs_restart = false;
        host_ready = true;
        active = true;
        watchdog = none;
        param_mirror = [];
        mirror_pending = false;
        mirror_gate_sample_time = 0;
        mirror_primed = false;
      }
      ∷ [];
  clip_version = 3;
  clip_dirty = false;
  harmony_events = record { nanotick = 40; root = 2; scale_id = 1; flags = 0 } ∷ [];
  harmony_version = 5;
  harmony_dirty = false;
  next_chord_id = 1;
  chain_version = 0;
  routing_version = 0;
  mod_version = 0;
  patcher_graph_state = record { graph = graph; version = 0; next_node_id = 0 };
  patcher_graph_snapshot = graph;
  patcher_graph_version = 0;
  plugin_cache = [];
  undo_stack = [];
  redo_stack = [];
  playing = false;
  loop_start_nanotick = 0;
  loop_end_nanotick = 0;
  transport_nanotick = 7;
  clip_window_pending = none;
  ui_open = true;
  outbox = [];
  host_calls = [];
}

-- A command with a base version, on the tick 40, with a range that ends at 90.
abbrev command : ℕ → UiCommandPayload
command base = record {
  flags = 0;
  track_id = 0;
  plugin_index = 0;
  note_pitch = 64;
  value0 = 3;
  note_nanotick_lo = 40;
  note_nanotick_hi = 0;
  note_duration_lo = 90;
  note_duration_hi = 0;
  base_version = base;
}

abbrev chord_command : ℕ → UiChordCommandPayload
chord_command base = record {
  flags = 0;
  track_id = 0;
  base_version = base;
  nanotick_lo = 10;
  nanotick_hi = 0;
  duration_lo = 5;
  duration_hi = 0;
  degree = 1;
  quality = 0;
  inversion = 0;
  base_octave = 4;
  humanize_timing = 0;
  humanize_velocity = 0;
  spread = 0;
}

engine-IsTimeline : IsTimeline engine.harmony_events
engine-IsTimeline = (refl, tt, tt)

clip-CellsUnique : CellsUnique clip
unfolding count
clip-CellsUnique t k = ground arith

engine-IsSound : IsSound engine
unfolding build_clip_snapshot count
engine-IsSound = record {
  timeline = engine-IsTimeline;
  tracks = (
    record {
      tidy = ((tt, tt), clip-CellsUnique);
      clip_published = refl;
      state_published = refl;
      single = omega arith;
    },
    tt,
  );
  graph = (tt, tt);
  graph_published = (tt, tt);
}

-- A device of a kind, with the slot 0, at the front.
abbrev chain_command : ℕ → UiChainCommandPayload
chain_command kind = record {
  flags = 0;
  track_id = 0;
  base_version = 0;
  device_id = 0xFFFFFFFF;
  device_kind = kind;
  insert_index = 0;
  patcher_node_id = 0;
  host_slot_index = 0;
  bypass = 0;
}

abbrev graph_command : ℕ → UiPatcherGraphCommandPayload
graph_command type = record {
  flags = 0;
  track_id = 0;
  base_version = 0;
  node_id = 0;
  node_type = type;
  src_node_id = 0;
  dst_node_id = 0;
  src_port_id = 0;
  dst_port_id = 0;
  edge_kind = 0;
}

-- The order of a graph with one node.
abbrev one_node : ℕ → List (ℕ × ℕ) → Option (List ℕ)
one_node n edges = some (0 ∷ [])

abbrev no_edges : List (ℕ × ℕ) → ℕ → List ℕ
no_edges edges n = []

abbrev commands : List UiCommand
commands =
    UiCommand.write_chord (chord_command 3)
    ∷ UiCommand.write_harmony (command 5)
    ∷ UiCommand.undo (command 4)
    ∷ UiCommand.write_note (command 4)
    ∷ UiCommand.redo (command 5)
    ∷ UiCommand.chain_command ChainCommand.add (chain_command 3)
    ∷ UiCommand.chain_command ChainCommand.add (chain_command 1)
    ∷ UiCommand.add_patcher_node (graph_command 4)
    ∷ []

run_commands-IsSound_example : IsSound (run_commands one_node no_edges commands engine)
unfolding Publishes
run_commands-IsSound_example =
    run_commands-IsSound one_node no_edges commands engine
      (tt, (tt, (tt, (tt, (tt, (tt, (tt, (tt, tt)))))))) engine-IsSound

-- Of two notes for one cell, made against the same version, the second comes too late.
no_lost_edit_example :
    let after = handle_ui_entry one_node no_edges (UiCommand.write_note (command 3)) engine in
    (after.tracks ≡ engine.tracks)
    ⊎ (handle_ui_entry one_node no_edges (UiCommand.delete_chord (chord_command 3)) after
        ≡ resync_clip after)
no_lost_edit_example =
    no_lost_edit one_node no_edges (SongEdit.write_note (command 3))
      (SongEdit.delete_chord (chord_command 3)) engine refl

no_lost_harmony_example :
    let after = handle_ui_entry one_node no_edges (UiCommand.write_harmony (command 5)) engine in
    (after.harmony_events ≡ engine.harmony_events)
    ⊎ (handle_ui_entry one_node no_edges (UiCommand.delete_harmony (command 5)) after
        ≡ resync_harmony after)
no_lost_harmony_example =
    no_lost_harmony one_node no_edges (HarmonyChange.write_harmony (command 5))
      (HarmonyEdit.delete_harmony (command 5)) engine refl

abbrev link : ModLink
link = record {
  link_id = 7;
  source = record { device_id = 1; source_id = 2; kind = ModSourceKind.envelope };
  target = record {
    device_id = 3;
    target_id = 4;
    kind = ModTargetKind.patcher_macro;
    uid16 = replicate 16 0;
  };
  depth = 0;
  bias = 0;
  rate = ModRate.sample_rate;
  enabled = true;
}

decode-encode_example :
    (decode_source_kind (encode_flags link) ≡ some ModSourceKind.envelope)
    × (decode_target_kind (encode_flags link) ≡ some ModTargetKind.patcher_macro)
    × (decode_rate (encode_flags link) ≡ some ModRate.sample_rate)
    × (decode_enabled (encode_flags link) ≡ true)
    × (encode_flags link < 2 ^ 16)
decode-encode_example = decode-encode link

set_loop_range_lem_example :
    let out = set_loop_range (command 0) engine in
    (out.loop_start_nanotick ≡ 40)
    × (out.loop_end_nanotick ≡ 90)
    × (40 ≤ out.transport_nanotick)
    × (out.transport_nanotick < 90)
    × Rewound 40 90 7 out.transport_nanotick
set_loop_range_lem_example = set_loop_range_lem (command 0) engine (omega arith)
