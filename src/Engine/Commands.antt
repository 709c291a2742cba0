-- ===== src/Engine/Commands.antt =====
-- apps/daw_engine_main.cpp: what handleUiEntry does with the commands of the UI that edit the song
-- or the transport. The bytes of an entry have been read as the struct of its command.
use unidaw.Base.{
  ℕ, ◌+◌, ◌*◌, ◌%◌, ◌^◌, min, Bool, true, false, [], ◌∷◌, none, some, not, ◌||◌, ltb, leb, ◌==◌,
  if◌then◌else◌,
}
use unidaw.Event.{ChordPayload, no_chord}
use unidaw.Payload.{UiHarmonyDiffType, no_diff, no_harmony_diff}
use unidaw.Payload.Commands.{UiCommandPayload, UiClipWindowCommandPayload, UiChordCommandPayload}
use unidaw.Edit.{UndoType, UndoEntry, require_matching_clip_version}
use unidaw.Engine.{
  Engine, find_track, put_track, build_track_snapshot, emit_ui_diff, emit_harmony_diff,
  invert_undo_entry,
}
use unidaw.Engine.HarmonyEdits.{add_or_update_harmony, remove_harmony}
use unidaw.Engine.Notes.{
  apply_add_note, apply_remove_note, apply_add_chord, apply_remove_chord, apply_remove_chord_at,
}

-- The engine's `requireMatchingClipVersion`: on a stale base version the UI is told to resync.
unfoldable pub require_clip_version : ℕ → Engine → Bool × Engine
require_clip_version base_version e =
    let (ok, diff) = require_matching_clip_version base_version e.clip_version no_diff in
    (ok, if ok then e else emit_ui_diff diff e)

unfoldable pub require_harmony_version : ℕ → Engine → Bool × Engine
require_harmony_version base_version e = if base_version == e.harmony_version then (true, e) else (
  false,
  emit_harmony_diff
      (record no_harmony_diff {
        diff_type = UiHarmonyDiffType.resync_needed;
        harmony_version = e.harmony_version;
      })
      e,
)

-- The chord that an undo entry describes.
abbrev pub entry_chord : UndoEntry → ChordPayload
entry_chord u = record no_chord {
  chord_id = u.chord_id;
  degree = u.chord_degree;
  quality = u.chord_quality;
  inversion = u.chord_inversion;
  base_octave = u.chord_base_octave;
  column = u.chord_column;
  spread = u.chord_spread;
  humanize_timing = u.chord_humanize_timing;
  humanize_velocity = u.chord_humanize_velocity;
  duration = u.duration;
}

-- The switch on the type of the entry.
abbrev pub apply_as : UndoType → UndoEntry → Bool → Engine → Bool × Engine
apply_as UndoType.add_note u record_undo e =
    apply_add_note u.track_id u.nanotick u.duration u.pitch u.velocity u.flags record_undo
      (some u.note_id) e
apply_as UndoType.remove_note u record_undo e =
    apply_remove_note u.track_id u.nanotick u.pitch u.flags record_undo e
apply_as UndoType.add_harmony u record_undo e =
    add_or_update_harmony u.nanotick u.harmony_root u.harmony_scale_id record_undo e
apply_as UndoType.remove_harmony u record_undo e = remove_harmony u.nanotick record_undo e
apply_as UndoType.update_harmony u record_undo e =
    add_or_update_harmony u.nanotick u.harmony_root u.harmony_scale_id record_undo e
apply_as UndoType.add_chord u record_undo e =
    apply_add_chord u.track_id u.nanotick (entry_chord u) record_undo (some u.chord_id) e
apply_as UndoType.remove_chord u record_undo e =
    apply_remove_chord u.track_id u.chord_id record_undo e

unfoldable pub apply_undo_entry : UndoEntry → Bool → Engine → Bool × Engine
apply_undo_entry u record_undo e = apply_as u.type u record_undo e

-- A 64-bit value from its halves.
abbrev pub join : (lo hi : ℕ) → ℕ
join lo hi = lo + hi * 2 ^ 32

abbrev pub guarded : Bool × Engine → (Engine → Engine) → Engine
guarded (true, e) act = act e
guarded (false, e) act = e

-- Each command that is guarded by a version, once that is checked, and then with the guard.
abbrev pub do_write_note : UiCommandPayload → Engine → Engine
do_write_note p e' =
    (apply_add_note p.track_id (join p.note_nanotick_lo p.note_nanotick_hi)
      (join p.note_duration_lo p.note_duration_hi) (min p.note_pitch 127) (min p.value0 127) p.flags
      true none e').1

unfoldable pub write_note : UiCommandPayload → Engine → Engine
write_note p e = guarded (require_clip_version p.base_version e) (do_write_note p)

abbrev pub do_delete_note : UiCommandPayload → Engine → Engine
do_delete_note p e' =
    (apply_remove_note p.track_id (join p.note_nanotick_lo p.note_nanotick_hi)
      (min p.note_pitch 127) p.flags true e').1

unfoldable pub delete_note : UiCommandPayload → Engine → Engine
delete_note p e = guarded (require_clip_version p.base_version e) (do_delete_note p)

unfoldable pub toggle_play : Engine → Engine
toggle_play e = record e { playing = not e.playing }

unfoldable pub request_clip_window : UiClipWindowCommandPayload → Engine → Engine
request_clip_window w e = record e {
  clip_window_pending = some (record {
    track_id = w.track_id;
    request_id = w.request_id;
    cursor_event_index = w.cursor_event_index;
    window_start_nanotick = join w.window_start_lo w.window_start_hi;
    window_end_nanotick = join w.window_end_lo w.window_end_hi;
  });
}

-- Undo and Redo once the version is checked: the top entry is taken off and carried out, and its
-- inverse goes to the other stack if that went through.
unfoldable pub undo_top : Engine → Engine
undo_top e = elim e.undo_stack [
  | [] ↦ e
  | u ∷ us ↦
      let (ok, e') = apply_undo_entry u false (record e { undo_stack = us }) in
      if ok then record e' { redo_stack = invert_undo_entry u ∷ e'.redo_stack } else e'
]

unfoldable pub redo_top : Engine → Engine
redo_top e = elim e.redo_stack [
  | [] ↦ e
  | u ∷ us ↦
      let (ok, e') = apply_undo_entry u false (record e { redo_stack = us }) in
      if ok then record e' { undo_stack = invert_undo_entry u ∷ e'.undo_stack } else e'
]

unfoldable pub undo : UiCommandPayload → Engine → Engine
undo p e = guarded (require_clip_version p.base_version e) undo_top

unfoldable pub redo : UiCommandPayload → Engine → Engine
redo p e = guarded (require_clip_version p.base_version e) redo_top

abbrev pub do_write_harmony : UiCommandPayload → Engine → Engine
do_write_harmony p e' =
    (add_or_update_harmony (join p.note_nanotick_lo p.note_nanotick_hi) (p.note_pitch % 12) p.value0
      true e').1

unfoldable pub write_harmony : UiCommandPayload → Engine → Engine
write_harmony p e = guarded (require_harmony_version p.base_version e) (do_write_harmony p)

abbrev pub do_delete_harmony : UiCommandPayload → Engine → Engine
do_delete_harmony p e' = (remove_harmony (join p.note_nanotick_lo p.note_nanotick_hi) true e').1

unfoldable pub delete_harmony : UiCommandPayload → Engine → Engine
delete_harmony p e = guarded (require_harmony_version p.base_version e) (do_delete_harmony p)

-- The arguments of applyAddChord; its id is settled there.
abbrev pub asked_chord : UiChordCommandPayload → ChordPayload
asked_chord p = record no_chord {
  degree = p.degree % 256;
  quality = p.quality;
  inversion = p.inversion;
  base_octave = p.base_octave;
  column = p.flags % 256;
  spread = p.spread;
  humanize_timing = p.humanize_timing;
  humanize_velocity = p.humanize_velocity;
  duration = join p.duration_lo p.duration_hi;
}

abbrev pub do_write_chord : UiChordCommandPayload → Engine → Engine
do_write_chord p e' =
    (apply_add_chord p.track_id (join p.nanotick_lo p.nanotick_hi) (asked_chord p) true none e').1

unfoldable pub write_chord : UiChordCommandPayload → Engine → Engine
write_chord p e = guarded (require_clip_version p.base_version e) (do_write_chord p)

-- The id of the chord comes in `spread`; 0 asks for the chord of the cell.
abbrev pub do_delete_chord : UiChordCommandPayload → Engine → Engine
do_delete_chord p e' =
    if p.spread == 0
    then (apply_remove_chord_at p.track_id (join p.nanotick_lo p.nanotick_hi) (p.flags % 256) true
        e').1
    else (apply_remove_chord p.track_id p.spread true e').1

unfoldable pub delete_chord : UiChordCommandPayload → Engine → Engine
delete_chord p e = guarded (require_clip_version p.base_version e) (do_delete_chord p)

unfoldable pub set_track_harmony_quantize : UiCommandPayload → Engine → Engine
set_track_harmony_quantize p e = elim (find_track e p.track_id) [
  | none ↦ e
  | some r ↦
      let track = record (r.track) { harmony_quantize = not (p.value0 == 0) } in
      put_track p.track_id (record r { track = track; track_snapshot = build_track_snapshot track })
        e
]

unfoldable pub set_loop_range : UiCommandPayload → Engine → Engine
set_loop_range p e =
    let start = join p.note_nanotick_lo p.note_nanotick_hi in
    let end = join p.note_duration_lo p.note_duration_hi in
    if ltb start end
    then record e {
      loop_start_nanotick = start;
      loop_end_nanotick = end;
      transport_nanotick =
          if ltb e.transport_nanotick start || leb end e.transport_nanotick
          then start
          else e.transport_nanotick;
    }
    else e
