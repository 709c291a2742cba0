-- ===== src/Edit.antt =====
-- apps/clip_edit.cpp: edits of a clip that the UI asks for, with what the UI is told and the entry
-- that undoes them. The payload is `UiDiffPayload` of apps/event_payloads.h.
pub mod Cells
pub mod Undo
mod Tests
use unidaw.Base.{
  ℕ, ◌+◌, ◌/◌, ◌%◌, ◌^◌, Bool, true, false, ◌&&◌, Option, none, some, ◌==◌, if◌then◌else◌,
}
use unidaw.Base.Words.{add32}
use unidaw.Payload.{UiDiffType, UiDiffPayload, no_diff}
use unidaw.Event.{
  MusicalEventType, NotePayload, MusicalEventPayload, MusicalEvent, no_note, no_param, no_chord,
}
use unidaw.Clip.{
  MusicalClip, RemovedNote, allocate_note_id, add_event, remove_note_at, remove_chord_at,
}
use unidaw.Clip.Span.{remove_note_offs_in_span}

pub data UndoType : Type 0 where
  add_note remove_note add_harmony remove_harmony update_harmony add_chord remove_chord : UndoType

pub record UndoEntry : Type 0 where
  pub type : UndoType
  pub track_id : ℕ
  pub nanotick : ℕ
  pub duration : ℕ
  pub pitch : ℕ
  pub velocity : ℕ
  pub note_id : ℕ
  pub flags : ℕ
  pub harmony_root : ℕ
  pub harmony_scale_id : ℕ
  pub harmony_root2 : ℕ
  pub harmony_scale_id2 : ℕ
  pub chord_id : ℕ
  pub chord_degree : ℕ
  pub chord_quality : ℕ
  pub chord_inversion : ℕ
  pub chord_base_octave : ℕ
  pub chord_column : ℕ
  pub chord_spread : ℕ
  pub chord_humanize_timing : ℕ
  pub chord_humanize_velocity : ℕ

-- `UndoEntry undo{}`.
abbrev pub no_undo : UndoEntry
no_undo = record {
  type = UndoType.add_note;
  track_id = 0;
  nanotick = 0;
  duration = 0;
  pitch = 0;
  velocity = 0;
  note_id = 0;
  flags = 0;
  harmony_root = 0;
  harmony_scale_id = 0;
  harmony_root2 = 0;
  harmony_scale_id2 = 0;
  chord_id = 0;
  chord_degree = 0;
  chord_quality = 0;
  chord_inversion = 0;
  chord_base_octave = 0;
  chord_column = 0;
  chord_spread = 0;
  chord_humanize_timing = 0;
  chord_humanize_velocity = 0;
}

pub record ClipEditResult : Type 0 where
  pub diff : UiDiffPayload
  pub next_clip_version : ℕ
  pub undo : Option UndoEntry

-- The returned flag, and the payload that is left in `diffOut`.
unfoldable pub require_matching_clip_version : ℕ → ℕ → UiDiffPayload → Bool × UiDiffPayload
require_matching_clip_version base current diff_out =
    if base == current
    then (true, diff_out)
    else (false, record no_diff { diff_type = UiDiffType.resync_needed; clip_version = current })

-- `v & 0xffffffff` and `(v >> 32) & 0xffffffff` of a 64-bit value.
abbrev pub lo32 : ℕ → ℕ
lo32 v = v % 2 ^ 32

abbrev pub hi32 : ℕ → ℕ
hi32 v = v / 2 ^ 32 % 2 ^ 32

-- The cell is emptied: its chord, its note, and for a note-off the note-offs of its span.
unfoldable pub clear_cell : MusicalClip → (nanotick duration velocity column : ℕ) → MusicalClip
clear_cell c nanotick duration velocity column =
    let c1 = (remove_chord_at c nanotick column).1 in
    let c2 = (remove_note_at c1 nanotick column).1 in
    if velocity == 0 && duration == 0 then remove_note_offs_in_span c2 nanotick column else c2

abbrev pub note_event : (nanotick duration pitch velocity column note_id : ℕ) → MusicalEvent
note_event nanotick duration pitch velocity column note_id = record {
  nanotick_offset = nanotick;
  type = MusicalEventType.note;
  payload = record {
    note = record no_note {
      pitch = pitch;
      velocity = velocity;
      column = column;
      duration = duration;
      note_id = note_id;
    };
    param = no_param;
    chord = no_chord;
  };
}

-- The diff and the undo entry that describe a note.
abbrev pub note_diff :
    UiDiffType → (track_id version nanotick duration pitch velocity column : ℕ) → UiDiffPayload
note_diff type track_id version nanotick duration pitch velocity column = record no_diff {
  diff_type = type;
  track_id = track_id;
  clip_version = version;
  note_nanotick_lo = lo32 nanotick;
  note_nanotick_hi = hi32 nanotick;
  note_duration_lo = lo32 duration;
  note_duration_hi = hi32 duration;
  note_pitch = pitch;
  note_velocity = velocity;
  note_column = column;
}

abbrev pub note_undo :
    UndoType → (track_id nanotick duration pitch velocity note_id column : ℕ) → UndoEntry
note_undo type track_id nanotick duration pitch velocity note_id column = record no_undo {
  type = type;
  track_id = track_id;
  nanotick = nanotick;
  duration = duration;
  pitch = pitch;
  velocity = velocity;
  note_id = note_id;
  flags = column;
}

-- The result, the clip after the edit, and the new value of the shared `clipVersion`.
unfoldable pub add_note_to_clip :
    MusicalClip
    → (track_id nanotick duration pitch velocity flags version : ℕ) → Bool
    → Option ℕ
    → ClipEditResult × MusicalClip × ℕ
unfolding clear_cell
add_note_to_clip c track_id nanotick duration pitch velocity flags version record_undo id_override =
    let column = flags % 256 in
    let cleared = clear_cell c nanotick duration velocity column in
    let (note_id, numbered) = allocate_note_id cleared id_override in
    let clip = add_event numbered (note_event nanotick duration pitch velocity column note_id) in
    let next = add32 version 1 in
    (
      record {
        diff = note_diff UiDiffType.add_note track_id next nanotick duration pitch velocity column;
        next_clip_version = next;
        undo =
            if record_undo
            then some (
                note_undo UndoType.remove_note track_id nanotick duration pitch velocity note_id
                  column)
            else none;
      },
      clip,
      next,
    )

abbrev removal : RemovedNote → (track_id nanotick version : ℕ) → Bool → ClipEditResult
removal r track_id nanotick version record_undo = record {
  diff =
      note_diff UiDiffType.remove_note track_id version nanotick r.duration r.pitch r.velocity
        r.column;
  next_clip_version = version;
  undo =
      if record_undo
      then some (
          note_undo UndoType.add_note track_id r.nanotick r.duration r.pitch r.velocity r.note_id
            r.column)
      else none;
}

-- The pitch that the caller names is not used, in the code either.
unfoldable pub remove_note_from_clip :
    MusicalClip
    → (track_id nanotick pitch flags version : ℕ) → Bool
    → Option ClipEditResult × MusicalClip × ℕ
remove_note_from_clip c track_id nanotick pitch flags version record_undo =
    let (removed, clip) = remove_note_at c nanotick (flags % 256) in
    elim removed [
      | none ↦ (none, clip, version)
      | some r ↦
          (some (removal r track_id nanotick (add32 version 1) record_undo), clip, add32 version 1)
    ]
