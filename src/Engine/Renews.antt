-- ===== src/Engine/Renews.antt =====
-- An edit of the harmony goes with the next version of the harmony.
use unidaw.Base.{
  ℕ, ◌≡◌, ◌⊎◌, refl, ap, ◌∙◌, Bool, true, false, Option, none, some, inl, inr, Option-cases,
  if◌then◌else◌,
}
use unidaw.Base.Words.{add32}
use unidaw.Event.{ChordPayload}
use unidaw.Clip.{MusicalClip, RemovedChord, remove_chord_by_id}
use unidaw.Payload.{UiChordDiffType}
use unidaw.Edit.{UndoType, UndoEntry, add_note_to_clip, remove_note_from_clip}
use unidaw.Engine.{
  Engine, TrackRuntime, find_track, publish_clip, push_undo, emit_ui_diff, emit_chord_diff,
  emit_harmony_diff, send,
}
use unidaw.Engine.HarmonyEdits.{add_or_update_harmony, remove_harmony, erase_event}
use unidaw.Engine.Notes.{
  apply_add_note, apply_remove_note, apply_add_chord, apply_remove_chord, finish_chord,
  finish_removal, emit_remove_chord_diff, push_some, allocate_chord_id, chord_of,
}
use unidaw.Engine.Commands.{undo_top, redo_top, apply_as, apply_undo_entry}
use unidaw.Engine.Bumps.{List-cases}

-- The harmony has not changed, or its version has.
abbrev pub Renews : Engine → Engine → Type 0
Renews e e' =
    (e'.harmony_events ≡ e.harmony_events) ⊎ (e'.harmony_version ≡ add32 e.harmony_version 1)

pushed_events :
    (b : Bool) (u : UndoEntry) (x : Engine)
    → (if b then push_undo u x else x).harmony_events ≡ x.harmony_events
unfolding push_undo
pushed_events true u x = refl
pushed_events false u x = refl

pushed_version :
    (b : Bool) (u : UndoEntry) (x : Engine)
    → (if b then push_undo u x else x).harmony_version ≡ x.harmony_version
unfolding push_undo
pushed_version true u x = refl
pushed_version false u x = refl

pushed_some_events :
    (u : Option UndoEntry) (x : Engine) → (push_some u x).harmony_events ≡ x.harmony_events
unfolding push_undo
pushed_some_events none x = refl
pushed_some_events (some u) x = refl

add_note_events :
    (track t d p v flags : ℕ) (rec : Bool) (id : Option ℕ) (e : Engine)
    → (apply_add_note track t d p v flags rec id e).1.harmony_events ≡ e.harmony_events
unfolding apply_add_note emit_ui_diff send publish_clip add_note_to_clip
add_note_events track t d p v flags rec id e = elim (Option-cases (find_track e track)) [
  | inl z ↦ rw (z, apply_add_note) refl
  | inr (r, z) ↦ rw (z, apply_add_note) (pushed_some_events _ _)
]

remove_note_events :
    (track t p flags : ℕ) (rec : Bool) (e : Engine)
    → (apply_remove_note track t p flags rec e).1.harmony_events ≡ e.harmony_events
unfolding apply_remove_note emit_ui_diff send publish_clip
remove_note_events track t p flags rec e = elim (Option-cases (find_track e track)) [
  | inl z ↦ rw (z, apply_remove_note) refl
  | inr (r, z) ↦
      elim (Option-cases
        (remove_note_from_clip r.track.clip track t p flags e.clip_version rec).0) [
          | inl y ↦ rw (z, y, apply_remove_note) refl
          | inr (done, y) ↦ rw (z, y, apply_remove_note) (pushed_some_events _ _)
        ]
]

finish_chord_events :
    (type : UiChordDiffType) (inverse : UndoType) (track t : ℕ) (c : ChordPayload) (rec : Bool)
    (e : Engine)
    → (finish_chord type inverse track t c rec e).harmony_events ≡ e.harmony_events
unfolding emit_chord_diff send
finish_chord_events type inverse track t c rec e = pushed_events rec _ _

add_chord_events :
    (track t : ℕ) (c : ChordPayload) (rec : Bool) (id : Option ℕ) (e : Engine)
    → (apply_add_chord track t c rec id e).1.harmony_events ≡ e.harmony_events
unfolding apply_add_chord publish_clip
add_chord_events track t c rec id e = elim (Option-cases (find_track e track)) [
  | inl z ↦ rw (z, apply_add_chord) refl
  | inr (r, z) ↦
      rw (z, apply_add_chord)
        (finish_chord_events _ _ track t
          (record c { chord_id = (allocate_chord_id e.next_chord_id id).0 }) rec _)
]

removal_events :
    (track : ℕ) (r : TrackRuntime) (out : Option RemovedChord × MusicalClip) (rec : Bool)
    (e : Engine)
    → (finish_removal track r out rec e).1.harmony_events ≡ e.harmony_events
unfolding emit_remove_chord_diff publish_clip
removal_events track r (none, clip) rec e = refl
removal_events track r (some removed, clip) rec e =
    finish_chord_events _ _ track removed.nanotick (chord_of removed) rec _

remove_chord_events :
    (track id : ℕ) (rec : Bool) (e : Engine)
    → (apply_remove_chord track id rec e).1.harmony_events ≡ e.harmony_events
unfolding apply_remove_chord
remove_chord_events track id rec e = elim (Option-cases (find_track e track)) [
  | inl z ↦ rw (z, apply_remove_chord) refl
  | inr (r, z) ↦
      rw (z, apply_remove_chord) (removal_events track r (remove_chord_by_id r.track.clip id) rec e)
]

pub write-Renews :
    (t root scale : ℕ) (rec : Bool) (e : Engine)
    → Renews e (add_or_update_harmony t root scale rec e).1
unfolding add_or_update_harmony emit_harmony_diff send
write-Renews t root scale rec e = inr (ap (λ n. add32 n 1) (pushed_version rec _ _))

pub erase-Renews : (t : ℕ) (rec : Bool) (e : Engine) → Renews e (remove_harmony t rec e).1
unfolding remove_harmony emit_harmony_diff send
erase-Renews t rec e = elim (Option-cases (erase_event e.harmony_events t).0) [
  | inl z ↦ rw (z, remove_harmony) (inl refl)
  | inr (p, z) ↦ rw (z, remove_harmony) (inr (ap (λ n. add32 n 1) (pushed_version rec _ _)))
]

apply-Renews : (u : UndoEntry) (rec : Bool) (e : Engine) → Renews e (apply_undo_entry u rec e).1
unfolding apply_undo_entry
apply-Renews u rec e = by_type u.type
  where
    by_type : (type : UndoType) → Renews e (apply_as type u rec e).1
    by_type UndoType.add_note = inl (add_note_events _ _ _ _ _ _ rec _ e)
    by_type UndoType.remove_note = inl (remove_note_events _ _ _ _ rec e)
    by_type UndoType.add_harmony = write-Renews _ _ _ rec e
    by_type UndoType.remove_harmony = erase-Renews _ rec e
    by_type UndoType.update_harmony = write-Renews _ _ _ rec e
    by_type UndoType.add_chord = inl (add_chord_events _ _ _ rec _ e)
    by_type UndoType.remove_chord = inl (remove_chord_events _ _ rec e)

replayed-Renews :
    (e : Engine) (out : Bool × Engine) (x : Engine)
    → Renews e out.1
    → x.harmony_events ≡ out.1.harmony_events
    → x.harmony_version ≡ out.1.harmony_version
    → Renews e (if out.0 then x else out.1)
replayed-Renews e (true, e') x (inl h) p q = inl (p ∙ h)
replayed-Renews e (true, e') x (inr h) p q = inr (q ∙ h)
replayed-Renews e (false, e') x h p q = h

pub undo_top-Renews : (e : Engine) → Renews e (undo_top e)
unfolding undo_top
undo_top-Renews e = elim (List-cases e.undo_stack) [
  | inl z ↦ rw (z, undo_top) (inl refl)
  | inr (u, us, z) ↦
      rw (z, undo_top)
        (replayed-Renews e (apply_undo_entry u false (record e { undo_stack = us })) _
          (apply-Renews u false (record e { undo_stack = us })) refl refl)
]

pub redo_top-Renews : (e : Engine) → Renews e (redo_top e)
unfolding redo_top
redo_top-Renews e = elim (List-cases e.redo_stack) [
  | inl z ↦ rw (z, redo_top) (inl refl)
  | inr (u, us, z) ↦
      rw (z, redo_top)
        (replayed-Renews e (apply_undo_entry u false (record e { redo_stack = us })) _
          (apply-Renews u false (record e { redo_stack = us })) refl refl)
]
