-- ===== src/Clip.antt =====
-- `MusicalClip` and `PatternView` of apps/musical_structures.h: the events of a track, by tick.
pub mod Order
pub mod Span
pub mod Cells
mod Tests
pub mod Range
pub mod Rows
use unidaw.Base.{
  ℕ, suc, ◌+◌, ◌*◌, ◌/◌, Bool, true, false, ◌&&◌, ◌||◌, not, List, [], ◌∷◌, Option, none, some, ltb,
  leb, ◌==◌, if◌then◌else◌, get_elem?, insert_at, erase_at, find_if, remove_if, lower_bound,
  take_below, drop, extract,
}
use unidaw.Base.Words.{add32, add64, u64_max}
use unidaw.Event.{
  MusicalEventType, note, param, meta, chord, NotePayload, ChordPayload, MusicalEventPayload,
  MusicalEvent, is_note, is_chord, tick, note_column, chord_column,
}

pub record MusicalClip : Type 0 where
  pub events : List MusicalEvent
  pub next_note_id : ℕ

abbrev pub empty : MusicalClip
empty = record { events = []; next_note_id = 1 }

pub reserve_note_id : MusicalClip → ℕ → MusicalClip
reserve_note_id c id = if leb c.next_note_id id then record c { next_note_id = add32 id 1 } else c

-- `nextNoteId_++`, wrapping.
abbrev next_id : MusicalClip → ℕ × MusicalClip
next_id c = (c.next_note_id, record c { next_note_id = add32 c.next_note_id 1 })

pub allocate_note_id : MusicalClip → Option ℕ → ℕ × MusicalClip
unfolding reserve_note_id
allocate_note_id c none = next_id c
allocate_note_id c (some id) = if ltb 0 id then (id, reserve_note_id c id) else next_id c

abbrev pub with_note_id : MusicalEvent → ℕ → MusicalEvent
with_note_id e id = record e {
  payload = record (e.payload) { note = record (e.payload.note) { note_id = id } };
}

-- The event as it will be stored, and the clip whose counter has taken account of it.
pub number_event : MusicalClip → MusicalEvent → MusicalEvent × MusicalClip
unfolding allocate_note_id reserve_note_id
number_event c e =
    if is_note e.type
    then if e.payload.note.note_id == 0
      then (let (id, c') = allocate_note_id c none in (with_note_id e id, c'))
      else (e, reserve_note_id c e.payload.note.note_id)
    else (e, c)

abbrev pub place : List MusicalEvent → MusicalEvent → List MusicalEvent
place events e = insert_at events (lower_bound tick events (tick e)) e

pub add_event : MusicalClip → MusicalEvent → MusicalClip
unfolding number_event
add_event c e = let (e', c') = number_event c e in record c' { events = place c'.events e' }

-- Pointers into the events are the events.
unfoldable pub get_events_in_range : MusicalClip → ℕ → ℕ → List MusicalEvent
get_events_in_range c start_tick end_tick =
    take_below tick end_tick (drop (lower_bound tick c.events start_tick) c.events)

pub record RemovedNote : Type 0 where
  pub nanotick : ℕ
  pub duration : ℕ
  pub pitch : ℕ
  pub velocity : ℕ
  pub column : ℕ
  pub note_id : ℕ

abbrev pub removed_note : MusicalEvent → RemovedNote
removed_note e = record {
  nanotick = e.nanotick_offset;
  duration = e.payload.note.duration;
  pitch = e.payload.note.pitch;
  velocity = e.payload.note.velocity;
  column = e.payload.note.column;
  note_id = e.payload.note.note_id;
}

abbrev pub note_at : ℕ → ℕ → MusicalEvent → Bool
note_at nanotick column e = is_note e.type && tick e == nanotick && note_column e == column

-- Removes the first event that passes, and describes it.
pub take_first {ℓ} :
    {R : Type ℓ} → (MusicalEvent → Bool) → (MusicalEvent → R) → MusicalClip → Option R × MusicalClip
take_first p describe c = elim (extract p c.events) [
  | none ↦ (none, c)
  | some (e, rest) ↦ (some (describe e), record c { events = rest })
]

-- `removeNoteAt`: the first note of the cell.
unfoldable pub remove_note_at : MusicalClip → ℕ → ℕ → Option RemovedNote × MusicalClip
unfolding take_first
remove_note_at c nanotick column = take_first (note_at nanotick column) removed_note c

abbrev filtered : (MusicalEvent → Bool) → MusicalClip → MusicalClip
filtered p c = record c { events = remove_if p c.events }

pub remove_notes_at : MusicalClip → ℕ → MusicalClip
remove_notes_at c nanotick = filtered (λ e. is_note e.type && tick e == nanotick) c

pub remove_chords_at : MusicalClip → ℕ → MusicalClip
remove_chords_at c nanotick = filtered (λ e. is_chord e.type && tick e == nanotick) c

pub remove_all_events_at : MusicalClip → ℕ → MusicalClip
remove_all_events_at c nanotick =
    filtered (λ e. tick e == nanotick && (is_note e.type || is_chord e.type)) c

pub record RemovedChord : Type 0 where
  pub nanotick : ℕ
  pub duration : ℕ
  pub chord_id : ℕ
  pub degree : ℕ
  pub quality : ℕ
  pub inversion : ℕ
  pub base_octave : ℕ
  pub column : ℕ
  pub spread : ℕ
  pub humanize_timing : ℕ
  pub humanize_velocity : ℕ

abbrev pub removed_chord : MusicalEvent → RemovedChord
removed_chord e = record {
  nanotick = e.nanotick_offset;
  duration = e.payload.chord.duration;
  chord_id = e.payload.chord.chord_id;
  degree = e.payload.chord.degree;
  quality = e.payload.chord.quality;
  inversion = e.payload.chord.inversion;
  base_octave = e.payload.chord.base_octave;
  column = e.payload.chord.column;
  spread = e.payload.chord.spread;
  humanize_timing = e.payload.chord.humanize_timing;
  humanize_velocity = e.payload.chord.humanize_velocity;
}

abbrev pub chord_at : ℕ → ℕ → MusicalEvent → Bool
chord_at nanotick column e = is_chord e.type && tick e == nanotick && chord_column e == column

unfoldable pub remove_chord_at : MusicalClip → ℕ → ℕ → Option RemovedChord × MusicalClip
unfolding take_first
remove_chord_at c nanotick column = take_first (chord_at nanotick column) removed_chord c

abbrev pub chord_of_id : ℕ → MusicalEvent → Bool
chord_of_id id e = is_chord e.type && e.payload.chord.chord_id == id

unfoldable pub remove_chord_by_id : MusicalClip → ℕ → Option RemovedChord × MusicalClip
unfolding take_first
remove_chord_by_id c id = take_first (chord_of_id id) removed_chord c
