-- ===== src/Engine/HostTests.antt =====
-- Tracks, their hosts and their plugins: a track whose host runs one plugin, and a cache of two.
use unidaw.Base.{ℕ, ◌≡◌, ◌⊎◌, refl, Bool, true, false, List, [], ◌∷◌, none, some, arith}
use unidaw.Base.Count.{count}
use unidaw.Chain.{DeviceKind, Device, has_instrument}
use unidaw.Chain.Instruments.{instrument, instruments}
use unidaw.Payload.Commands.{UiCommandPayload}
use unidaw.Engine.{
  Engine, TrackRuntime, HostCall, ScanStatus, PluginCacheEntry, build_track_snapshot, find_track,
}
use unidaw.Engine.Hosts.{
  call_host, chain_paths, resolve_plugin_path, send_bypasses, resolve_host_index,
  resolve_device_plugin_path, open_plugin_editor, host_slot_index_direct,
}
use unidaw.Engine.Loads.{
  Environment, first_track, first_runtime, vst_in_slot, grow_tracks, grow_fuel,
  load_plugin_on_track,
}
use unidaw.Engine.Slots.{Plays, open_plugin_editor_lem}
use unidaw.Engine.Growth.{Grown, ensure_track_ends}
use unidaw.Engine.Unpublished.{load_plugin_unpublished}

abbrev own : List ℕ
own = 1 ∷ []

abbrev other : List ℕ
other = 2 ∷ []

abbrev cache : List PluginCacheEntry
cache =
    record { path = other; scan_status = ScanStatus.ok; error = [] }
    ∷ record { path = own; scan_status = ScanStatus.failed; error = 9 ∷ [] }
    ∷ []

abbrev runtime_with : List Device → TrackRuntime
runtime_with devices =
    first_runtime 0 (first_track (record { devices = devices })) (other ∷ []) true none

abbrev engine_with : TrackRuntime → Engine
engine_with r = record {
  tracks = r ∷ [];
  clip_version = 0;
  clip_dirty = false;
  harmony_events = [];
  harmony_version = 0;
  harmony_dirty = false;
  next_chord_id = 1;
  chain_version = 0;
  routing_version = 0;
  mod_version = 0;
  patcher_graph_state = record {
    graph = record {
      nodes = [];
      edges = [];
      topo_order = [];
      depths = [];
      resolved_inputs = [];
      id_to_index = [];
      max_depth = 0;
    };
    version = 0;
    next_node_id = 0;
  };
  patcher_graph_snapshot = record {
    nodes = [];
    edges = [];
    topo_order = [];
    depths = [];
    resolved_inputs = [];
    id_to_index = [];
    max_depth = 0;
  };
  patcher_graph_version = 0;
  plugin_cache = cache;
  undo_stack = [];
  redo_stack = [];
  playing = false;
  loop_start_nanotick = 0;
  loop_end_nanotick = 0;
  transport_nanotick = 0;
  clip_window_pending = none;
  ui_open = true;
  outbox = [];
  host_calls = [];
}

-- A VST effect with an id, in a slot of the cache.
abbrev effect : (id slot : ℕ) → Device
effect id slot = record (vst_in_slot slot) { id = id; kind = DeviceKind.vst_effect; bypass = true }

abbrev command : ℕ → UiCommandPayload
command value0 = record {
  flags = 0;
  track_id = 0;
  plugin_index = 0;
  note_pitch = 0;
  value0 = value0;
  note_nanotick_lo = 0;
  note_nanotick_hi = 0;
  note_duration_lo = 0;
  note_duration_hi = 0;
  base_version = 0;
}

abbrev env : Environment
env = record {
  start = λ connect track paths. record { connected = true; has_shm = true; has_mailbox = true };
  canonical = λ path. path;
  base_plugin_paths = [];
}

-- The plugin of the device 4 is not known, and that of the device 5 is the first of the host.
abbrev unknown_first : List Device
unknown_first = effect 4 1 ∷ effect 5 0 ∷ []

slot_of_editor : resolve_host_index cache (runtime_with []) 0 5 unknown_first ≡ some 0
unfolding resolve_host_index resolve_device_plugin_path resolve_plugin_path
slot_of_editor = refl

-- For the same device the bypass is sent to the second.
slot_of_bypass :
    (send_bypasses 0 0 unknown_first (engine_with (runtime_with []))).host_calls
    ≡ HostCall.set_bypass 0 1 true ∷ HostCall.set_bypass 0 0 true ∷ []
unfolding send_bypasses
slot_of_bypass = refl

abbrev edited : Engine
edited = engine_with (runtime_with unknown_first)

open_plugin_editor_lem_example :
    (open_plugin_editor (command 5) edited ≡ edited)
    ⊎ ((r : TrackRuntime) × (slot : ℕ) × (find_track edited 0 ≡ some r)
        × (open_plugin_editor (command 5) edited
            ≡ call_host (HostCall.open_editor r.track_id slot) edited)
        × Plays cache r 5 r.track.chain.devices slot)
open_plugin_editor_lem_example = open_plugin_editor_lem (command 5) edited

abbrev started : TrackRuntime
started = record (runtime_with []) { plugin_paths = own ∷ [] }

abbrev direct : Device
direct = effect 7 host_slot_index_direct

-- The plugin of the direct slot, when the paths are rebuilt twice behind another plugin.
abbrev rebuilt : List (List ℕ)
rebuilt = chain_paths cache started (effect 5 0 ∷ direct ∷ [])

rebuilt_once : rebuilt ≡ other ∷ own ∷ []
unfolding resolve_plugin_path chain_paths resolve_device_plugin_path
rebuilt_once = refl

rebuilt_twice :
    chain_paths cache (record started { plugin_paths = rebuilt }) (effect 5 0 ∷ direct ∷ [])
    ≡ other ∷ other ∷ []
unfolding resolve_plugin_path chain_paths resolve_device_plugin_path
rebuilt_twice = refl

ensure_track_ends_example :
    (out : Bool × Engine) × (grow_tracks env 3 own grow_fuel (engine_with started) ≡ some out)
    × Grown env 3 own (engine_with started) out
ensure_track_ends_example =
    ensure_track_ends env 3 own (engine_with started) (omega arith) (omega arith)

load_plugin_unpublished_example :
    (r' : TrackRuntime) × (find_track
        (load_plugin_on_track env (command 0) (engine_with (runtime_with [])))
        0
      ≡ some r')
    × (instruments r'.track.chain ≡ 1)
    × (count instrument r'.track_snapshot.chain_devices ≡ 0)
unfolding resolve_plugin_path has_instrument build_track_snapshot
load_plugin_unpublished_example =
    load_plugin_unpublished env (command 0) (engine_with (runtime_with [])) (runtime_with []) other
      refl (omega arith) refl refl refl refl
