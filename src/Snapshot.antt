-- ===== src/Snapshot.antt =====
-- apps/ui_snapshot.cpp: the part of a clip, and the harmony events, that the UI gets to see. The
-- arrays of the shared structs are the lists of their filled entries.
pub mod Pages
pub mod Ends
pub mod Follow
mod Tests
use unidaw.Base.{
  ℕ, zero, suc, ◌+◌, ◌%◌, ◌^◌, min, Bool, true, false, ◌&&◌, ◌||◌, List, [], ◌∷◌, map, Option, none,
  some, ltb, leb, ◌==◌, if◌then◌else◌, length, get_elem?, lower_bound, drop,
}
use unidaw.Base.Words.{add64}
use unidaw.Event.{MusicalEvent, is_note, is_chord, tick}
use unidaw.Clip.{MusicalClip}
use unidaw.Harmony.{HarmonyEvent}

abbrev pub ui_max_clip_notes : ℕ
ui_max_clip_notes = 4096

abbrev pub ui_max_clip_chords : ℕ
ui_max_clip_chords = 1024

abbrev pub ui_max_harmony_events : ℕ
ui_max_harmony_events = 512

pub record ClipWindowRequest : Type 0 where
  pub track_id : ℕ
  pub request_id : ℕ
  pub cursor_event_index : ℕ
  pub window_start_nanotick : ℕ
  pub window_end_nanotick : ℕ

pub record UiClipNote : Type 0 where
  pub t_on : ℕ
  pub t_off : ℕ
  pub note_id : ℕ
  pub pitch : ℕ
  pub velocity : ℕ
  pub column : ℕ

pub record UiClipChord : Type 0 where
  pub nanotick : ℕ
  pub duration : ℕ
  pub spread : ℕ
  pub humanize_timing : ℕ
  pub humanize_velocity : ℕ
  pub chord_id : ℕ
  pub degree : ℕ
  pub quality : ℕ
  pub inversion : ℕ
  pub base_octave : ℕ
  pub flags : ℕ

pub record UiClipWindowSnapshot : Type 0 where
  pub track_id : ℕ
  pub clip_version : ℕ
  pub window_start_nanotick : ℕ
  pub window_end_nanotick : ℕ
  pub request_id : ℕ
  pub cursor_event_index : ℕ
  pub next_event_index : ℕ
  pub note_count : ℕ
  pub chord_count : ℕ
  pub flags : ℕ
  pub notes : List UiClipNote
  pub chords : List UiClipChord

pub record ClipWindowResult : Type 0 where
  pub next_event_index : ℕ
  pub complete : Bool

abbrev pub ui_note : MusicalEvent → UiClipNote
ui_note e = record {
  t_on = tick e;
  t_off = add64 (tick e) e.payload.note.duration;
  note_id = e.payload.note.note_id;
  pitch = e.payload.note.pitch;
  velocity = e.payload.note.velocity;
  column = e.payload.note.column;
}

abbrev pub ui_chord : MusicalEvent → UiClipChord
ui_chord e =
    let c = e.payload.chord in
    record {
      nanotick = tick e;
      duration = c.duration;
      spread = c.spread;
      humanize_timing = c.humanize_timing;
      humanize_velocity = c.humanize_velocity;
      chord_id = c.chord_id;
      degree = c.degree;
      quality = c.quality;
      inversion = c.inversion;
      base_octave = c.base_octave;
      flags = c.column;
    }

-- The tests on the event at an index, which is none at the end.
abbrev pub starts_before : ℕ → Option MusicalEvent → Bool
starts_before window_start none = false
starts_before window_start (some e) = ltb (tick e) window_start

abbrev pub ends_at : ℕ → Option MusicalEvent → Bool
ends_at window_end none = true
ends_at window_end (some e) = leb window_end (tick e)

-- The index that the loop starts from.
unfoldable pub start_index : List MusicalEvent → ClipWindowRequest → ℕ
start_index events request =
    let i = min request.cursor_event_index (length events) in
    if i == 0 || starts_before request.window_start_nanotick (get_elem? events i)
    then lower_bound tick events request.window_start_nanotick
    else i

-- What the loop fills in, and how many events it passes.
pub record Filled : Type 0 where
  pub notes : List UiClipNote
  pub chords : List UiClipChord
  pub taken : ℕ

abbrev pub nothing : Filled
nothing = record { notes = []; chords = []; taken = 0 }

abbrev pub fill : MusicalEvent → Filled → Filled
fill e rest = record {
  notes = if is_note e.type then ui_note e ∷ rest.notes else rest.notes;
  chords = if is_chord e.type then ui_chord e ∷ rest.chords else rest.chords;
  taken = suc rest.taken;
}

-- Whether there is no more room for the event.
abbrev pub full : (note_count chord_count : ℕ) → MusicalEvent → Bool
full note_count chord_count e =
    is_note e.type && leb ui_max_clip_notes note_count
    || is_chord e.type && leb ui_max_clip_chords chord_count

-- The loop, over the events from the start on.
unfoldable pub scan : (window_end note_count chord_count : ℕ) → List MusicalEvent → Filled
scan window_end note_count chord_count [] = nothing
scan window_end note_count chord_count (e ∷ es) =
    let rest =
      scan window_end (if is_note e.type then suc note_count else note_count)
        (if is_chord e.type then suc chord_count else chord_count) es in
    if leb window_end (tick e) || full note_count chord_count e then nothing else fill e rest

unfoldable pub build_ui_clip_window_snapshot :
    MusicalClip → ClipWindowRequest → ℕ → ClipWindowResult × UiClipWindowSnapshot
build_ui_clip_window_snapshot clip request clip_version =
    let start = start_index clip.events request in
    let filled = scan request.window_end_nanotick 0 0 (drop start clip.events) in
    let idx = start + filled.taken in
    let complete = ends_at request.window_end_nanotick (get_elem? clip.events idx) in
    (
      record { next_event_index = idx % 2 ^ 32; complete = complete },
      record {
        track_id = request.track_id;
        clip_version = clip_version;
        window_start_nanotick = request.window_start_nanotick;
        window_end_nanotick = request.window_end_nanotick;
        request_id = request.request_id;
        cursor_event_index = request.cursor_event_index;
        next_event_index = idx % 2 ^ 32;
        note_count = length filled.notes;
        chord_count = length filled.chords;
        flags = if complete then 1 else 0;
        notes = filled.notes;
        chords = filled.chords;
      },
    )

pub record UiHarmonySnapshot : Type 0 where
  pub event_count : ℕ
  pub events : List HarmonyEvent

-- The first `count` events are copied.
abbrev copy_events : ℕ → List HarmonyEvent → List HarmonyEvent
copy_events zero es = []
copy_events (suc n) [] = []
copy_events (suc n) (e ∷ es) = e ∷ copy_events n es

unfoldable pub build_ui_harmony_snapshot : List HarmonyEvent → UiHarmonySnapshot
build_ui_harmony_snapshot events =
    let count = min (length events) ui_max_harmony_events in
    record { event_count = count; events = copy_events count events }
