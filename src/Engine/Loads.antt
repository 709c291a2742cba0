-- ===== src/Engine/Loads.antt =====
-- apps/daw_engine_main.cpp: the command LoadPluginOnTrack, with the tracks and hosts it starts.
use unidaw.Base.{
  ℕ, zero, suc, Bool, true, false, not, ◌&&◌, ◌||◌, List, [], ◌∷◌, ◌++◌, Option, none, some, ltb,
  leb, ◌==◌, if◌then◌else◌, length,
}
use mathlib.Core.Option
use unidaw.StateContainer.{eq_bytes}
use unidaw.Abi.{default_euclidean}
use unidaw.Clip
use unidaw.Chain.{DeviceKind, Device, TrackChain, default_track_chain, device_id_auto, add_device}
use unidaw.Routing.{default_track_routing}
use unidaw.Watchdog.{Watchdog, FaultType}
use unidaw.Payload.Commands.{UiCommandPayload}
use unidaw.Engine.{
  Engine, Track, TrackRuntime, PluginCacheEntry, build_track_snapshot, find_track, put_track,
}
use unidaw.Engine.Hosts.{
  is_empty, host_slot_index_direct, resolve_plugin_path, same_paths, rebuild_host_for_chain,
  emit_chain_snapshot,
}

abbrev pub ui_max_tracks : ℕ
ui_max_tracks = 8

-- What an attempt to connect to the host of a track, or to launch it, ends with.
pub record HostAnswer : Type 0 where
  pub connected : Bool
  pub has_shm : Bool
  pub has_mailbox : Bool

-- What is outside: the start of a host (a connect if the flag is set) for a track and its plugins,
-- the canonical form of a path, and the plugins of the base configuration.
pub record Environment : Type 0 where
  pub start : Bool → ℕ → List (List ℕ) → HostAnswer
  pub canonical : List ℕ → List ℕ
  pub base_plugin_paths : List (List ℕ)

abbrev same_plugin : Environment → List ℕ → PluginCacheEntry → Bool
same_plugin env path entry =
    not (is_empty entry.path)
    && (eq_bytes (env.canonical entry.path) (env.canonical path) || eq_bytes entry.path path)

abbrev index_from : (PluginCacheEntry → Bool) → ℕ → List PluginCacheEntry → Option ℕ
index_from p i [] = none
index_from p i (x ∷ xs) = if p x then some i else index_from p (suc i) xs

unfoldable pub resolve_plugin_index : Environment → List PluginCacheEntry → List ℕ → Option ℕ
resolve_plugin_index env entries path =
    if is_empty path then none else index_from (same_plugin env path) 0 entries

-- An instrument that a slot of the plugin cache plays.
abbrev pub vst_in_slot : ℕ → Device
vst_in_slot slot = record {
  id = device_id_auto;
  kind = DeviceKind.vst_instrument;
  capability_mask = 5;
  patcher_node_id = 0;
  host_slot_index = slot;
  bypass = false;
  has_euclidean_config = false;
  euclidean_config = default_euclidean;
}

abbrev pub new_watchdog : Bool → Watchdog
new_watchdog has_mailbox = record {
  has_mailbox = has_mailbox;
  hard_timeout_blocks = 500;
  has_on_restart = true;
  consecutive_late_blocks = 0;
  fault = FaultType.no_fault;
}

abbrev first_slot : Environment → List PluginCacheEntry → List ℕ → ℕ
first_slot env entries path = elim (resolve_plugin_index env entries path) [
  | none ↦ host_slot_index_direct
  | some index ↦ index
]

abbrev pub first_chain : Environment → List PluginCacheEntry → List ℕ → TrackChain
first_chain env entries path =
    if is_empty path
    then default_track_chain
    else (add_device default_track_chain (vst_in_slot (first_slot env entries path))
        device_id_auto).1

abbrev pub first_track : TrackChain → Track
first_track chain = record {
  clip = Clip.empty;
  automation_clips = [];
  harmony_quantize = true;
  chain = chain;
  routing = default_track_routing;
  mod_registry = record { sources = []; links = [] };
}

-- A runtime whose host runs, or does not.
abbrev pub first_runtime :
    ℕ → Track → List (List ℕ) → (host_ready : Bool) → Option Watchdog → TrackRuntime
first_runtime track_id track paths host_ready watchdog = record {
  track_id = track_id;
  track = track;
  clip_snapshot = record { events = [] };
  track_snapshot = build_track_snapshot track;
  plugin_paths = paths;
  needs_restart = false;
  host_ready = host_ready;
  active = false;
  watchdog = watchdog;
  param_mirror = [];
  mirror_pending = false;
  mirror_gate_sample_time = 0;
  mirror_primed = false;
}

-- `none` is the null pointer that is returned when the host does not start.
unfoldable pub setup_track_runtime :
    Environment
    → List PluginCacheEntry
    → ℕ
    → List ℕ
    → (allow_connect start_host : Bool) → Option TrackRuntime
setup_track_runtime env entries track_id path allow_connect start_host =
    let paths = if is_empty path then env.base_plugin_paths else path ∷ [] in
    let track = first_track (first_chain env entries path) in
    let answer = env.start ((track_id == 0) && allow_connect) track_id paths in
    if start_host
    then (if answer.connected && answer.has_shm
        then some (first_runtime track_id track paths true (some (new_watchdog answer.has_mailbox)))
        else none)
    else some (first_runtime track_id track paths false none)

abbrev pub enqueue_mirror_replay : TrackRuntime → TrackRuntime
enqueue_mirror_replay r = record r {
  mirror_gate_sample_time = 0;
  mirror_pending = true;
  mirror_primed = false;
}

abbrev stopped : TrackRuntime → List (List ℕ) → TrackRuntime
stopped r paths = record r {
  active = false;
  host_ready = false;
  param_mirror = [];
  plugin_paths = paths;
}

abbrev restarted : HostAnswer → TrackRuntime → TrackRuntime
restarted answer r = record r {
  watchdog = some (new_watchdog answer.has_mailbox);
  host_ready = true;
}

unfoldable pub restart_track_host : Environment → List (List ℕ) → TrackRuntime → Bool × TrackRuntime
restart_track_host env paths r =
    let off = stopped r paths in
    let answer = env.start false r.track_id paths in
    let on = restarted answer off in
    if answer.connected && answer.has_shm
    then (true, if is_empty on.param_mirror then on else enqueue_mirror_replay on)
    else (false, off)

-- The loop that adds tracks until there is one with the id, on fuel. The flag says whether there is;
-- `none` means that the fuel ran out.
unfoldable pub grow_tracks : Environment → ℕ → List ℕ → ℕ → Engine → Option (Bool × Engine)
grow_tracks env track_id path zero e = none
grow_tracks env track_id path (suc fuel) e = elim (ltb track_id (length e.tracks)) [
  | true ↦ some (true, e)
  | false ↦ elim (setup_track_runtime env e.plugin_cache (length e.tracks) path true true) [
    | none ↦ some (false, e)
    | some r ↦ grow_tracks env track_id path fuel (record e { tracks = e.tracks ++ (r ∷ []) })
  ]
]

abbrev pub wanted_paths : List ℕ → List (List ℕ)
wanted_paths path = if is_empty path then [] else path ∷ []

-- Rounds that are enough for the tracks that there may be.
abbrev pub grow_fuel : ℕ
grow_fuel = suc ui_max_tracks

-- Whether the track is there in the end, with the engine that the call leaves.
unfoldable pub ensure_track : Environment → ℕ → List ℕ → Engine → Bool × Engine
ensure_track env track_id path e =
    if leb ui_max_tracks track_id then (false, e) else elim (find_track e track_id) [
      | some r ↦
          if same_paths r.plugin_paths (wanted_paths path)
          then (true, e)
          else (let (started, r') = restart_track_host env (wanted_paths path) r in
              (started, put_track track_id r' e))
      | none ↦ elim (grow_tracks env track_id path grow_fuel e) [
        | none ↦ (false, e)
        | some grown ↦ grown
      ]
    ]

abbrev pub is_vst_instrument : DeviceKind → Bool
is_vst_instrument DeviceKind.vst_instrument = true
is_vst_instrument _ = false

-- The first VST instrument plays another slot.
unfoldable pub reslot : ℕ → List Device → Option (List Device)
reslot slot [] = none
reslot slot (d ∷ ds) =
    if is_vst_instrument d.kind
    then some (record d { host_slot_index = slot; capability_mask = 5 } ∷ ds)
    else Option.map (◌∷◌ d) (reslot slot ds)

unfoldable pub instrument_chain : ℕ → TrackChain → TrackChain
instrument_chain slot chain = elim (reslot slot chain.devices) [
  | none ↦ (add_device chain (vst_in_slot slot) device_id_auto).1
  | some devices ↦ record { devices = devices }
]

-- The track with the instrument. Its snapshot is not built anew.
abbrev pub with_instrument : ℕ → TrackRuntime → TrackRuntime
with_instrument slot r = record r {
  track = record (r.track) { chain = instrument_chain slot r.track.chain };
}

abbrev pub update_track_chain_for_instrument : ℕ → TrackRuntime → ℕ → Engine → Engine
update_track_chain_for_instrument track r plugin_index e =
    let r' = with_instrument plugin_index r in
    rebuild_host_for_chain track r' (put_track track r' e)

abbrev pub load_into : UiCommandPayload → Bool × Engine → Engine
load_into p (false, e) = e
load_into p (true, e) = elim (find_track e p.track_id) [
  | none ↦ e
  | some r ↦
      emit_chain_snapshot (with_instrument p.plugin_index r)
        (update_track_chain_for_instrument p.track_id r p.plugin_index e)
]

-- The command LoadPluginOnTrack.
unfoldable pub load_plugin_on_track : Environment → UiCommandPayload → Engine → Engine
load_plugin_on_track env p e = elim (resolve_plugin_path e.plugin_cache p.plugin_index) [
  | none ↦ e
  | some path ↦ load_into p (ensure_track env p.track_id path e)
]
