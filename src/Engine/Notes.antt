-- ===== src/Engine/Notes.antt =====
-- apps/daw_engine_main.cpp: the note and chord edits of a track.
use unidaw.Base.{ℕ, ◌+◌, ◌*◌, ◌%◌, ◌^◌, Bool, true, false, Option, none, some, if◌then◌else◌, leb}
use unidaw.Base.Words.{add32}
use unidaw.Event.{MusicalEventType, ChordPayload, MusicalEvent, no_note, no_param, no_chord}
use unidaw.Clip.{
  MusicalClip, RemovedChord, add_event, remove_note_at, remove_chord_at, remove_chord_by_id,
}
use unidaw.Payload.{UiChordDiffType, UiChordDiffPayload, no_chord_diff}
use unidaw.Edit.{
  UndoType, UndoEntry, ClipEditResult, no_undo, lo32, hi32, add_note_to_clip, remove_note_from_clip,
}
use unidaw.Engine.{
  Engine, TrackRuntime, find_track, publish_clip, push_undo, emit_ui_diff, emit_chord_diff,
}

abbrev pub push_some : Option UndoEntry → Engine → Engine
push_some none e = e
push_some (some u) e = push_undo u e

-- The end of both note edits.
abbrev pub finish_note : ℕ → TrackRuntime → ClipEditResult → MusicalClip → ℕ → Engine → Engine
finish_note track_id r result clip version e =
    push_some result.undo (
      emit_ui_diff result.diff (publish_clip track_id r clip (record e { clip_version = version })))

unfoldable pub apply_add_note :
    (track_id nanotick duration pitch velocity flags : ℕ) → Bool → Option ℕ → Engine → Bool × Engine
apply_add_note track_id nanotick duration pitch velocity flags record_undo note_id_override e =
    elim (find_track e track_id) [
      | none ↦ (false, e)
      | some r ↦
          let (result, clip, version) =
            add_note_to_clip r.track.clip track_id nanotick duration pitch velocity flags
              e.clip_version record_undo note_id_override in
          (true, finish_note track_id r result clip version e)
    ]

unfoldable pub apply_remove_note :
    (track_id nanotick pitch flags : ℕ) → Bool → Engine → Bool × Engine
apply_remove_note track_id nanotick pitch flags record_undo e = elim (find_track e track_id) [
  | none ↦ (false, e)
  | some r ↦
      let (result, clip, version) =
        remove_note_from_clip r.track.clip track_id nanotick pitch flags e.clip_version
          record_undo in
      elim result [
        | none ↦ (false, e)
        | some done ↦ (true, finish_note track_id r done clip version e)
      ]
]

-- The id of a new chord and the counter after it. The loop of compare_exchange_weak ends with the
-- counter above the id, except for the last id, after which the counter wraps to 0.
unfoldable pub allocate_chord_id : ℕ → Option ℕ → ℕ × ℕ
allocate_chord_id next none = (next, add32 next 1)
allocate_chord_id next (some id) = (id, if leb next id then add32 id 1 else next)

abbrev pub chord_event : ℕ → ChordPayload → MusicalEvent
chord_event nanotick chord = record {
  nanotick_offset = nanotick;
  type = MusicalEventType.chord;
  payload = record { note = no_note; param = no_param; chord = chord };
}

-- The diff of a chord. The shifted bytes do not overlap, so that `|` is a sum.
abbrev chord_diff :
    UiChordDiffType → (track_id version nanotick : ℕ) → ChordPayload → UiChordDiffPayload
chord_diff type track_id version nanotick c = record no_chord_diff {
  diff_type = type;
  track_id = track_id;
  clip_version = version;
  nanotick_lo = lo32 nanotick;
  nanotick_hi = hi32 nanotick;
  duration_lo = lo32 (c.duration);
  duration_hi = hi32 (c.duration);
  chord_id = c.chord_id;
  spread = c.column * 2 ^ 24 + c.spread % 2 ^ 24;
  packed = c.degree + c.quality * 2 ^ 8 + c.inversion * 2 ^ 16 + c.base_octave * 2 ^ 24;
  flags = c.humanize_timing % 256 + c.humanize_velocity % 256 * 2 ^ 8;
}

abbrev chord_undo : UndoType → (track_id nanotick : ℕ) → ChordPayload → UndoEntry
chord_undo type track_id nanotick c = record no_undo {
  type = type;
  track_id = track_id;
  nanotick = nanotick;
  duration = c.duration;
  chord_id = c.chord_id;
  chord_degree = c.degree;
  chord_quality = c.quality;
  chord_inversion = c.inversion;
  chord_base_octave = c.base_octave;
  chord_column = c.column;
  chord_spread = c.spread;
  chord_humanize_timing = c.humanize_timing;
  chord_humanize_velocity = c.humanize_velocity;
}

-- The end of the chord edits: the next clip version, the diff, then the undo entry.
abbrev pub finish_chord :
    UiChordDiffType → UndoType → (track_id nanotick : ℕ) → ChordPayload → Bool → Engine → Engine
finish_chord type undo_type track_id nanotick chord record_undo e =
    let next = add32 e.clip_version 1 in
    let sent =
      emit_chord_diff (chord_diff type track_id next nanotick chord)
        (record e { clip_version = next }) in
    if record_undo then push_undo (chord_undo undo_type track_id nanotick chord) sent else sent

-- The chord and the note of the cell go, and the new chord comes.
unfoldable pub place_chord : MusicalClip → ℕ → ChordPayload → MusicalClip
place_chord clip nanotick chord =
    add_event
      (remove_note_at (remove_chord_at clip nanotick chord.column).1 nanotick chord.column).1
      (chord_event nanotick chord)

-- `chord` is the chord that the arguments describe; its id is settled here.
unfoldable pub apply_add_chord :
    (track_id nanotick : ℕ) → ChordPayload → Bool → Option ℕ → Engine → Bool × Engine
apply_add_chord track_id nanotick chord record_undo chord_id_override e =
    elim (find_track e track_id) [
      | none ↦ (false, e)
      | some r ↦
          let (chord_id, next) = allocate_chord_id e.next_chord_id chord_id_override in
          let numbered = record chord { chord_id = chord_id } in
          let clip = place_chord r.track.clip nanotick numbered in
          (
            true,
            finish_chord UiChordDiffType.add_chord UndoType.remove_chord track_id nanotick numbered
                record_undo (publish_clip track_id r clip (record e { next_chord_id = next })),
          )
    ]

-- The fields of a removed chord, but for its tick.
abbrev pub chord_of : RemovedChord → ChordPayload
chord_of r = record no_chord {
  chord_id = r.chord_id;
  degree = r.degree;
  quality = r.quality;
  inversion = r.inversion;
  base_octave = r.base_octave;
  column = r.column;
  spread = r.spread;
  humanize_timing = r.humanize_timing;
  humanize_velocity = r.humanize_velocity;
  duration = r.duration;
}

unfoldable pub emit_remove_chord_diff : ℕ → RemovedChord → Bool → Engine → Engine
emit_remove_chord_diff track_id removed record_undo e =
    finish_chord UiChordDiffType.remove_chord UndoType.add_chord track_id removed.nanotick
      (chord_of removed) record_undo (record e { clip_dirty = true })

-- What both removals do with the clip's answer.
abbrev pub finish_removal :
    ℕ → TrackRuntime → Option RemovedChord × MusicalClip → Bool → Engine → Bool × Engine
finish_removal track_id r out record_undo e = elim out.0 [
  | none ↦ (false, e)
  | some removed ↦
      (true, emit_remove_chord_diff track_id removed record_undo (publish_clip track_id r out.1 e))
]

unfoldable pub apply_remove_chord : (track_id chord_id : ℕ) → Bool → Engine → Bool × Engine
apply_remove_chord track_id chord_id record_undo e = elim (find_track e track_id) [
  | none ↦ (false, e)
  | some r ↦ finish_removal track_id r (remove_chord_by_id r.track.clip chord_id) record_undo e
]

unfoldable pub apply_remove_chord_at :
    (track_id nanotick column : ℕ) → Bool → Engine → Bool × Engine
apply_remove_chord_at track_id nanotick column record_undo e = elim (find_track e track_id) [
  | none ↦ (false, e)
  | some r ↦ finish_removal track_id r (remove_chord_at r.track.clip nanotick column) record_undo e
]
