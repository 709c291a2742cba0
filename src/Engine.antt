-- ===== src/Engine.antt =====
-- apps/daw_engine_main.cpp: what the engine holds while the UI edits the song. The atomics and the
-- state behind the mutexes are fields, and a handler runs as one step on its thread.
pub mod Playback
pub mod Gather
pub mod Windows
pub mod Looped
pub mod Blocks
pub mod BlockSlots
pub mod Mirror
pub mod Views
pub mod PlayTests
pub mod ViewTests
pub mod HarmonyEdits
pub mod Notes
pub mod Commands
pub mod Timeline
pub mod Accept
pub mod Restore
pub mod Undo
pub mod Routes
pub mod ModFlags
pub mod Mods
pub mod Hosts
pub mod Chains
pub mod Targets
pub mod Patcher
pub mod Loads
pub mod Handle
pub mod Clips
pub mod Sound
pub mod Kept
pub mod Replays
pub mod Tracks
pub mod Devices
pub mod Patched
pub mod Slots
pub mod Growth
pub mod Unpublished
pub mod Safe
pub mod Stale
pub mod Bumps
pub mod Renews
pub mod Lost
pub mod LostHarmony
pub mod Laws
mod Tests
mod HostTests
use unidaw.Base.{
  ℕ, ◌+◌, Bool, true, false, List, [], ◌∷◌, Option, none, some, get_elem?, set, if◌then◌else◌,
}
use unidaw.Event.{MusicalEvent}
use unidaw.Clip.{MusicalClip}
use unidaw.Chain.{Device, TrackChain}
use unidaw.Harmony.{HarmonyEvent}
use unidaw.Automation.{AutomationClip}
use unidaw.Watchdog.{Watchdog}
use unidaw.Graph.{PatcherGraph}
use unidaw.Graph.Edits.{PatcherGraphState}
use unidaw.Routing.{TrackRouting}
use unidaw.Modulation.{ModLink, ModRegistry}
use unidaw.Payload.{UiDiffPayload, UiHarmonyDiffPayload, UiChordDiffPayload}
use unidaw.Payload.Tracks.{
  UiTrackRoutingDiffPayload, UiRoutingErrorPayload, UiModLinkDiffPayload, UiModLinkUid16DiffPayload,
  UiModErrorPayload, UiChainDiffPayload, UiChainErrorPayload, UiPatcherGraphDiffPayload,
  UiPatcherGraphErrorPayload,
}
use unidaw.Snapshot.{ClipWindowRequest}
use unidaw.Edit.{UndoType, UndoEntry}

pub record ClipSnapshot : Type 0 where
  pub events : List MusicalEvent

pub record TrackStateSnapshot : Type 0 where
  pub chain_devices : List Device
  pub mod_links : List ModLink
  pub harmony_quantize : Bool

pub record Track : Type 0 where
  pub clip : MusicalClip
  pub automation_clips : List AutomationClip
  pub harmony_quantize : Bool
  pub chain : TrackChain
  pub routing : TrackRouting
  pub mod_registry : ModRegistry

-- apps/plugin_cache.h: what the engine reads of an entry of the plugin cache. Text is its bytes.
pub data ScanStatus : Type 0 where
  ok failed timeout : ScanStatus

pub record PluginCacheEntry : Type 0 where
  pub path : List ℕ
  pub scan_status : ScanStatus
  pub error : List ℕ

pub record ParamMirrorEntry : Type 0 where
  pub value : ℕ
  pub target_plugin_index : ℕ

-- The fields that the handlers of the UI's commands use. `plugin_paths` is `config.pluginPaths`, and
-- the mirror of the parameters is kept by their uids.
pub record TrackRuntime : Type 0 where
  pub track_id : ℕ
  pub track : Track
  pub clip_snapshot : ClipSnapshot
  pub track_snapshot : TrackStateSnapshot
  pub plugin_paths : List (List ℕ)
  pub needs_restart : Bool
  pub host_ready : Bool
  pub active : Bool
  pub watchdog : Option Watchdog
  pub param_mirror : List (List ℕ × ParamMirrorEntry)
  pub mirror_pending : Bool
  pub mirror_gate_sample_time : ℕ
  pub mirror_primed : Bool

unfoldable pub build_clip_snapshot : MusicalClip → ClipSnapshot
build_clip_snapshot clip = record { events = clip.events }

unfoldable pub build_track_snapshot : Track → TrackStateSnapshot
build_track_snapshot t = record {
  chain_devices = t.chain.devices;
  mod_links = t.mod_registry.links;
  harmony_quantize = t.harmony_quantize;
}

-- The entries that go to the ring of the UI, by the struct that fills their payload.
pub data UiMessage : Type 0 where
  clip_diff : UiDiffPayload → UiMessage
  harmony_diff : UiHarmonyDiffPayload → UiMessage
  chord_diff : UiChordDiffPayload → UiMessage
  chain_diff : UiChainDiffPayload → UiMessage
  chain_error : UiChainErrorPayload → UiMessage
  routing_diff : UiTrackRoutingDiffPayload → UiMessage
  routing_error : UiRoutingErrorPayload → UiMessage
  mod_link_diff : UiModLinkDiffPayload → UiMessage
  mod_uid16_diff : UiModLinkUid16DiffPayload → UiMessage
  mod_error : UiModErrorPayload → UiMessage
  graph_diff : UiPatcherGraphDiffPayload → UiMessage
  graph_error : UiPatcherGraphErrorPayload → UiMessage

-- What is sent to the host of a track.
pub data HostCall : Type 0 where
  set_bypass : (track_id host_index : ℕ) → Bool → HostCall
  open_editor : (track_id host_index : ℕ) → HostCall

-- The stacks have their top first. `ui_open` is `ringUiOut.mask != 0`, `outbox` what was handed to
-- ringWrite for the UI, and `host_calls` what was sent to the hosts, the newest first.
pub record Engine : Type 0 where
  pub tracks : List TrackRuntime
  pub clip_version : ℕ
  pub clip_dirty : Bool
  pub harmony_events : List HarmonyEvent
  pub harmony_version : ℕ
  pub harmony_dirty : Bool
  pub next_chord_id : ℕ
  pub chain_version : ℕ
  pub routing_version : ℕ
  pub mod_version : ℕ
  pub patcher_graph_state : PatcherGraphState
  pub patcher_graph_snapshot : PatcherGraph
  pub patcher_graph_version : ℕ
  pub plugin_cache : List PluginCacheEntry
  pub undo_stack : List UndoEntry
  pub redo_stack : List UndoEntry
  pub playing : Bool
  pub loop_start_nanotick : ℕ
  pub loop_end_nanotick : ℕ
  pub transport_nanotick : ℕ
  pub clip_window_pending : Option ClipWindowRequest
  pub ui_open : Bool
  pub outbox : List UiMessage
  pub host_calls : List HostCall

-- The guard and the ringWrite of each `emit` function.
unfoldable pub send : UiMessage → Engine → Engine
send m e = record e { outbox = if e.ui_open then m ∷ e.outbox else e.outbox }

unfoldable pub emit_ui_diff : UiDiffPayload → Engine → Engine
emit_ui_diff diff_payload e = send (UiMessage.clip_diff diff_payload) e

unfoldable pub emit_harmony_diff : UiHarmonyDiffPayload → Engine → Engine
emit_harmony_diff diff_payload e = send (UiMessage.harmony_diff diff_payload) e

unfoldable pub emit_chord_diff : UiChordDiffPayload → Engine → Engine
emit_chord_diff diff_payload e = send (UiMessage.chord_diff diff_payload) e

unfoldable pub push_undo : UndoEntry → Engine → Engine
push_undo entry e = record e { undo_stack = entry ∷ e.undo_stack; redo_stack = [] }

abbrev inverse : UndoType → UndoEntry → UndoEntry
inverse UndoType.add_note u = record u { type = UndoType.remove_note }
inverse UndoType.remove_note u = record u { type = UndoType.add_note }
inverse UndoType.add_harmony u = record u { type = UndoType.remove_harmony }
inverse UndoType.remove_harmony u = record u { type = UndoType.add_harmony }
inverse UndoType.update_harmony u = record u {
  type = UndoType.update_harmony;
  harmony_root = u.harmony_root2;
  harmony_root2 = u.harmony_root;
  harmony_scale_id = u.harmony_scale_id2;
  harmony_scale_id2 = u.harmony_scale_id;
}
inverse UndoType.add_chord u = record u { type = UndoType.remove_chord }
inverse UndoType.remove_chord u = record u { type = UndoType.add_chord }

unfoldable pub invert_undo_entry : UndoEntry → UndoEntry
invert_undo_entry u = inverse u.type u

-- `tracks[trackId].get()` where the id is in range.
abbrev pub find_track : Engine → ℕ → Option TrackRuntime
find_track e track_id = get_elem? e.tracks track_id

abbrev pub put_track : ℕ → TrackRuntime → Engine → Engine
put_track track_id runtime e = record e { tracks = set e.tracks track_id runtime }

-- The clip of a track changes, and its snapshot is published.
unfoldable pub publish_clip : ℕ → TrackRuntime → MusicalClip → Engine → Engine
publish_clip track_id r clip e =
    record (put_track track_id
      (record r {
        track = record (r.track) { clip = clip };
        clip_snapshot = build_clip_snapshot clip;
      })
      e) { clip_dirty = true }
