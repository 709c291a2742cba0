-- ===== src/Event.antt =====
-- The musical events of apps/musical_structures.h. A float is its 32-bit pattern, which the clip
-- stores and never computes with.
use unidaw.Base.{ℕ, Bool, true, false, List, replicate}

pub data MusicalEventType : Type 0 where
  note param meta chord : MusicalEventType

pub record NotePayload : Type 0 where
  pub pitch : ℕ
  pub velocity : ℕ
  pub column : ℕ
  pub reserved : ℕ
  pub duration : ℕ
  pub note_id : ℕ

pub record ChordPayload : Type 0 where
  pub chord_id : ℕ
  pub degree : ℕ
  pub quality : ℕ
  pub inversion : ℕ
  pub base_octave : ℕ
  pub column : ℕ
  pub reserved : ℕ
  pub spread : ℕ
  pub humanize_timing : ℕ
  pub humanize_velocity : ℕ
  pub duration : ℕ

pub record MusicalParamPayload : Type 0 where
  pub uid16 : List ℕ
  pub value : ℕ

pub record MusicalEventPayload : Type 0 where
  pub note : NotePayload
  pub param : MusicalParamPayload
  pub chord : ChordPayload

pub record MusicalEvent : Type 0 where
  pub nanotick_offset : ℕ
  pub type : MusicalEventType
  pub payload : MusicalEventPayload

-- What `MusicalEvent event;` holds before its fields are set.
abbrev pub no_note : NotePayload
no_note = record { pitch = 0; velocity = 0; column = 0; reserved = 0; duration = 0; note_id = 0 }

abbrev pub no_param : MusicalParamPayload
no_param = record { uid16 = replicate 16 0; value = 0 }

abbrev pub no_chord : ChordPayload
no_chord = record {
  chord_id = 0;
  degree = 0;
  quality = 0;
  inversion = 0;
  base_octave = 0;
  column = 0;
  reserved = 0;
  spread = 0;
  humanize_timing = 0;
  humanize_velocity = 0;
  duration = 0;
}

-- The tests `event.type == MusicalEventType::Note` and `== Chord`.
abbrev pub is_note : MusicalEventType → Bool
is_note MusicalEventType.note = true
is_note _ = false

abbrev pub is_chord : MusicalEventType → Bool
is_chord MusicalEventType.chord = true
is_chord _ = false

-- The keys that the sorted sequence is searched by.
abbrev pub tick : MusicalEvent → ℕ
tick e = e.nanotick_offset

-- The note or the chord of a tracker cell: one tick, one column.
abbrev pub note_column : MusicalEvent → ℕ
note_column e = e.payload.note.column

abbrev pub chord_column : MusicalEvent → ℕ
chord_column e = e.payload.chord.column
