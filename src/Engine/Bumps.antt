-- ===== src/Engine/Bumps.antt =====
-- An edit of a clip goes with the next version of the clips.
use unidaw.Base.{
  ℕ, ◌%◌, ◌≡◌, ◌⊎◌, refl, ◌∙◌, Bool, true, false, List, [], ◌∷◌, Option, none, some, inl, inr,
  Option-cases, Bool-cases, if◌then◌else◌, ◌==◌,
}
use unidaw.Base.Words.{add32}
use unidaw.Event.{ChordPayload}
use unidaw.Clip.{MusicalClip, RemovedChord, remove_note_at}
use unidaw.Payload.{UiChordDiffType}
use unidaw.Edit.{UndoType, UndoEntry, add_note_to_clip, remove_note_from_clip}
use unidaw.Engine.{
  Engine, TrackRuntime, find_track, publish_clip, push_undo, emit_ui_diff, emit_chord_diff,
  emit_harmony_diff, send,
}
use unidaw.Engine.HarmonyEdits.{add_or_update_harmony, remove_harmony, erase_event}
use unidaw.Engine.Notes.{
  apply_add_note, apply_remove_note, apply_add_chord, apply_remove_chord, apply_remove_chord_at,
  finish_chord, finish_removal, emit_remove_chord_diff, push_some, allocate_chord_id, chord_of,
}
use unidaw.Payload.Commands.{UiChordCommandPayload}
use unidaw.Engine.Commands.{do_delete_chord, undo_top, redo_top, apply_as, apply_undo_entry}

-- No track has changed, or the version has.
abbrev pub Bumps : Engine → Engine → Type 0
Bumps e e' = (e'.tracks ≡ e.tracks) ⊎ (e'.clip_version ≡ add32 e.clip_version 1)

pushed :
    (b : Bool) (u : UndoEntry) (x : Engine)
    → ((if b then push_undo u x else x).tracks ≡ x.tracks)
      × ((if b then push_undo u x else x).clip_version ≡ x.clip_version)
unfolding push_undo
pushed true u x = (refl, refl)
pushed false u x = (refl, refl)

pushed_some : (u : Option UndoEntry) (x : Engine) → (push_some u x).clip_version ≡ x.clip_version
unfolding push_undo
pushed_some none x = refl
pushed_some (some u) x = refl

pub add_note-Bumps :
    (track t d p v flags : ℕ) (rec : Bool) (id : Option ℕ) (e : Engine)
    → Bumps e (apply_add_note track t d p v flags rec id e).1
unfolding apply_add_note emit_ui_diff send publish_clip add_note_to_clip
add_note-Bumps track t d p v flags rec id e = elim (Option-cases (find_track e track)) [
  | inl z ↦ rw (z, apply_add_note) (inl refl)
  | inr (r, z) ↦ rw (z, apply_add_note) (inr (pushed_some _ _))
]

removed_version :
    (c : MusicalClip) (track t p flags version : ℕ) (rec : Bool)
    → ((remove_note_from_clip c track t p flags version rec).0 ≡ none)
      ⊎ ((remove_note_from_clip c track t p flags version rec).2 ≡ add32 version 1)
unfolding remove_note_from_clip
removed_version c track t p flags version rec =
    elim (Option-cases (remove_note_at c t (flags % 256)).0) [
      | inl z ↦ inl (rw (z, remove_note_from_clip) refl)
      | inr (found, z) ↦ inr (rw (z, remove_note_from_clip) refl)
    ]

pub remove_note-Bumps :
    (track t p flags : ℕ) (rec : Bool) (e : Engine)
    → Bumps e (apply_remove_note track t p flags rec e).1
unfolding apply_remove_note emit_ui_diff send publish_clip
remove_note-Bumps track t p flags rec e = elim (Option-cases (find_track e track)) [
  | inl z ↦ rw (z, apply_remove_note) (inl refl)
  | inr (r, z) ↦
      elim (Option-cases
        (remove_note_from_clip r.track.clip track t p flags e.clip_version rec).0) [
          | inl y ↦ rw (z, y, apply_remove_note) (inl refl)
          | inr (done, y) ↦ elim (removed_version r.track.clip track t p flags e.clip_version rec) [
            | inl n ↦ cc
            | inr h ↦ rw (z, y, apply_remove_note) (inr (pushed_some _ _ ∙ h))
          ]
        ]
]

finish_chord-version :
    (type : UiChordDiffType) (inverse : UndoType) (track t : ℕ) (c : ChordPayload) (rec : Bool)
    (e : Engine)
    → (finish_chord type inverse track t c rec e).clip_version ≡ add32 e.clip_version 1
unfolding emit_chord_diff send
finish_chord-version type inverse track t c rec e = (pushed rec _ _).1

pub add_chord-Bumps :
    (track t : ℕ) (c : ChordPayload) (rec : Bool) (id : Option ℕ) (e : Engine)
    → Bumps e (apply_add_chord track t c rec id e).1
unfolding apply_add_chord publish_clip
add_chord-Bumps track t c rec id e = elim (Option-cases (find_track e track)) [
  | inl z ↦ rw (z, apply_add_chord) (inl refl)
  | inr (r, z) ↦
      rw (z, apply_add_chord)
        (inr (
          finish_chord-version _ _ track t
            (record c { chord_id = (allocate_chord_id e.next_chord_id id).0 }) rec _))
]

removal-Bumps :
    (track : ℕ) (r : TrackRuntime) (out : Option RemovedChord × MusicalClip) (rec : Bool)
    (e : Engine)
    → Bumps e (finish_removal track r out rec e).1
unfolding emit_remove_chord_diff publish_clip
removal-Bumps track r (none, clip) rec e = inl refl
removal-Bumps track r (some removed, clip) rec e =
    inr (finish_chord-version _ _ track removed.nanotick (chord_of removed) rec _)

remove_chord-Bumps :
    (track id : ℕ) (rec : Bool) (e : Engine) → Bumps e (apply_remove_chord track id rec e).1
unfolding apply_remove_chord
remove_chord-Bumps track id rec e = elim (Option-cases (find_track e track)) [
  | inl z ↦ rw (z, apply_remove_chord) (inl refl)
  | inr (r, z) ↦ rw (z, apply_remove_chord) (removal-Bumps track r _ rec e)
]

remove_chord_at-Bumps :
    (track t k : ℕ) (rec : Bool) (e : Engine) → Bumps e (apply_remove_chord_at track t k rec e).1
unfolding apply_remove_chord_at
remove_chord_at-Bumps track t k rec e = elim (Option-cases (find_track e track)) [
  | inl z ↦ rw (z, apply_remove_chord_at) (inl refl)
  | inr (r, z) ↦ rw (z, apply_remove_chord_at) (removal-Bumps track r _ rec e)
]

write_harmony-tracks :
    (t root scale : ℕ) (rec : Bool) (e : Engine)
    → (add_or_update_harmony t root scale rec e).1.tracks ≡ e.tracks
unfolding add_or_update_harmony emit_harmony_diff send
write_harmony-tracks t root scale rec e = (pushed rec _ _).0

remove_harmony-tracks :
    (t : ℕ) (rec : Bool) (e : Engine) → (remove_harmony t rec e).1.tracks ≡ e.tracks
unfolding remove_harmony emit_harmony_diff send
remove_harmony-tracks t rec e = elim (Option-cases (erase_event e.harmony_events t).0) [
  | inl z ↦ rw (z, remove_harmony) refl
  | inr (p, z) ↦ rw (z, remove_harmony) (pushed rec _ _).0
]

apply-Bumps : (u : UndoEntry) (rec : Bool) (e : Engine) → Bumps e (apply_undo_entry u rec e).1
unfolding apply_undo_entry
apply-Bumps u rec e = by_type u.type
  where
    by_type : (type : UndoType) → Bumps e (apply_as type u rec e).1
    by_type UndoType.add_note = add_note-Bumps _ _ _ _ _ _ rec _ e
    by_type UndoType.remove_note = remove_note-Bumps _ _ _ _ rec e
    by_type UndoType.add_harmony = inl (write_harmony-tracks _ _ _ rec e)
    by_type UndoType.remove_harmony = inl (remove_harmony-tracks _ rec e)
    by_type UndoType.update_harmony = inl (write_harmony-tracks _ _ _ rec e)
    by_type UndoType.add_chord = add_chord-Bumps _ _ _ rec _ e
    by_type UndoType.remove_chord = remove_chord-Bumps _ _ rec e

pub List-cases {ℓ} :
    {A : Type ℓ} (xs : List A) → (xs ≡ []) ⊎ ((x : A) × (rest : List A) × (xs ≡ x ∷ rest))
List-cases [] = inl refl
List-cases (x ∷ rest) = inr (x, rest, refl)

replayed-Bumps :
    (e : Engine) (out : Bool × Engine) (x : Engine)
    → Bumps e out.1
    → x.tracks ≡ out.1.tracks
    → x.clip_version ≡ out.1.clip_version
    → Bumps e (if out.0 then x else out.1)
replayed-Bumps e (true, e') x (inl h) p q = inl (p ∙ h)
replayed-Bumps e (true, e') x (inr h) p q = inr (q ∙ h)
replayed-Bumps e (false, e') x h p q = h

pub undo_top-Bumps : (e : Engine) → Bumps e (undo_top e)
unfolding undo_top
undo_top-Bumps e = elim (List-cases e.undo_stack) [
  | inl z ↦ rw (z, undo_top) (inl refl)
  | inr (u, us, z) ↦
      rw (z, undo_top)
        (replayed-Bumps e (apply_undo_entry u false (record e { undo_stack = us })) _
          (apply-Bumps u false (record e { undo_stack = us })) refl refl)
]

pub redo_top-Bumps : (e : Engine) → Bumps e (redo_top e)
unfolding redo_top
redo_top-Bumps e = elim (List-cases e.redo_stack) [
  | inl z ↦ rw (z, redo_top) (inl refl)
  | inr (u, us, z) ↦
      rw (z, redo_top)
        (replayed-Bumps e (apply_undo_entry u false (record e { redo_stack = us })) _
          (apply-Bumps u false (record e { redo_stack = us })) refl refl)
]

pub delete_chord-Bumps : (p : UiChordCommandPayload) (e : Engine) → Bumps e (do_delete_chord p e)
delete_chord-Bumps p e = elim (Bool-cases (p.spread == 0)) [
  | inl y ↦ rw (y) (remove_chord_at-Bumps p.track_id _ _ true e)
  | inr n ↦ rw (n) (remove_chord-Bumps p.track_id p.spread true e)
]
