-- ===== src/Payload.antt =====
-- The messages to the UI of apps/event_payloads.h, of which each fills the payload of an event.
pub mod Commands
pub mod Tracks
use unidaw.Base.{ℕ}

pub data UiDiffType : Type 0 where
  none add_note remove_note update_note resync_needed chain_snapshot chain_error : UiDiffType
  routing_snapshot routing_error mod_snapshot mod_error mod_link_uid16 : UiDiffType
  patcher_graph_delta patcher_graph_error : UiDiffType

pub record UiDiffPayload : Type 0 where
  pub diff_type : UiDiffType
  pub flags : ℕ
  pub track_id : ℕ
  pub clip_version : ℕ
  pub note_nanotick_lo : ℕ
  pub note_nanotick_hi : ℕ
  pub note_duration_lo : ℕ
  pub note_duration_hi : ℕ
  pub note_pitch : ℕ
  pub note_velocity : ℕ
  pub note_column : ℕ

-- `UiDiffPayload{}`.
abbrev pub no_diff : UiDiffPayload
no_diff = record {
  diff_type = UiDiffType.none;
  flags = 0;
  track_id = 0;
  clip_version = 0;
  note_nanotick_lo = 0;
  note_nanotick_hi = 0;
  note_duration_lo = 0;
  note_duration_hi = 0;
  note_pitch = 0;
  note_velocity = 0;
  note_column = 0;
}

pub data UiHarmonyDiffType : Type 0 where
  none add_event remove_event update_event resync_needed : UiHarmonyDiffType

pub data UiChordDiffType : Type 0 where
  none add_chord remove_chord update_chord resync_needed : UiChordDiffType

pub record UiHarmonyDiffPayload : Type 0 where
  pub diff_type : UiHarmonyDiffType
  pub flags : ℕ
  pub harmony_version : ℕ
  pub nanotick_lo : ℕ
  pub nanotick_hi : ℕ
  pub root : ℕ
  pub scale_id : ℕ

abbrev pub no_harmony_diff : UiHarmonyDiffPayload
no_harmony_diff = record {
  diff_type = UiHarmonyDiffType.none;
  flags = 0;
  harmony_version = 0;
  nanotick_lo = 0;
  nanotick_hi = 0;
  root = 0;
  scale_id = 0;
}

pub record UiChordDiffPayload : Type 0 where
  pub diff_type : UiChordDiffType
  pub flags : ℕ
  pub track_id : ℕ
  pub clip_version : ℕ
  pub nanotick_lo : ℕ
  pub nanotick_hi : ℕ
  pub duration_lo : ℕ
  pub duration_hi : ℕ
  pub chord_id : ℕ
  pub spread : ℕ
  pub packed : ℕ

abbrev pub no_chord_diff : UiChordDiffPayload
no_chord_diff = record {
  diff_type = UiChordDiffType.none;
  flags = 0;
  track_id = 0;
  clip_version = 0;
  nanotick_lo = 0;
  nanotick_hi = 0;
  duration_lo = 0;
  duration_hi = 0;
  chord_id = 0;
  spread = 0;
  packed = 0;
}
