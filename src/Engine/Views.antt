-- ===== src/Engine/Views.antt =====
-- What apps/daw_engine_main.cpp shows of the song: the page of a clip window that the UI asked for,
-- the harmony events, and the harmony at a tick.
use unidaw.Base.{
  ℕ, Bool, true, false, ◌&&◌, not, List, [], ◌∷◌, Option, none, some, if◌then◌else◌, ◌==◌,
}
use Prim.Native.Nat.{bit_and}
use unidaw.Chain.{Device}
use unidaw.Harmony.{HarmonyEvent, harmony_at}
use unidaw.Snapshot.{
  ClipWindowRequest, UiClipWindowSnapshot, UiHarmonySnapshot, build_ui_clip_window_snapshot,
  build_ui_harmony_snapshot,
}
use unidaw.Engine.{Engine, TrackRuntime}
use unidaw.Engine.Hosts.{is_vst}

-- kUiClipWindowFlagResync
abbrev resync_flag : ℕ
resync_flag = 2

abbrev pub find_runtime : ℕ → List TrackRuntime → Option TrackRuntime
find_runtime track_id [] = none
find_runtime track_id (r ∷ rs) =
    let rest = find_runtime track_id rs in if r.track_id == track_id then some r else rest

-- The page of a track that is not there.
abbrev pub resync_page : ClipWindowRequest → ℕ → UiClipWindowSnapshot
resync_page request clip_version = record {
  track_id = request.track_id;
  clip_version = clip_version;
  window_start_nanotick = request.window_start_nanotick;
  window_end_nanotick = request.window_end_nanotick;
  request_id = request.request_id;
  cursor_event_index = 0;
  next_event_index = 0;
  note_count = 0;
  chord_count = 0;
  flags = resync_flag;
  notes = [];
  chords = [];
}

abbrev pub clip_window_page : Engine → ClipWindowRequest → UiClipWindowSnapshot
clip_window_page e request = elim (find_runtime request.track_id e.tracks) [
  | none ↦ resync_page request e.clip_version
  | some r ↦ (build_ui_clip_window_snapshot r.track.clip request e.clip_version).1
]

-- The request that waits is taken, and the page for it is what the UI's memory has then. Nothing is
-- written where no request waits.
unfoldable pub write_ui_clip_window_snapshot :
    Option UiClipWindowSnapshot → Engine → Option UiClipWindowSnapshot × Engine
write_ui_clip_window_snapshot shown e = elim e.clip_window_pending [
  | none ↦ (shown, e)
  | some request ↦ (some (clip_window_page e request), record e { clip_window_pending = none })
]

unfoldable pub write_ui_harmony_snapshot : Engine → UiHarmonySnapshot
write_ui_harmony_snapshot e = build_ui_harmony_snapshot e.harmony_events

-- Without harmony events the song is in the major scale on C.
unfoldable pub get_harmony_at : Engine → ℕ → Option HarmonyEvent
get_harmony_at e nanotick = elim e.harmony_events [
  | [] ↦ some (record { nanotick = 0; root = 0; scale_id = 1; flags = 0 })
  | event ∷ events ↦ harmony_at (event ∷ events) nanotick
]

-- DeviceCapabilityConsumesMidi is the first bit.
abbrev consumes_midi : Device → Bool
consumes_midi d = not (bit_and d.capability_mask 1 == 0)

unfoldable pub chain_consumes_midi : List Device → Bool
chain_consumes_midi [] = false
chain_consumes_midi (d ∷ ds) =
    let rest = chain_consumes_midi ds in
    if is_vst d.kind && (not d.bypass && consumes_midi d) then true else rest
