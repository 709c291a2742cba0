-- ===== src/Engine/Replays.antt =====
-- Undo, redo and the version guards keep the engine sound.
use unidaw.Base.{ℕ, ◌≡◌, refl, Bool, true, false, List, [], ◌∷◌, inl, inr, Bool-cases, ◌==◌}
use unidaw.Payload.{no_diff}
use unidaw.Edit.{UndoType, UndoEntry, require_matching_clip_version}
use unidaw.Engine.{Engine, emit_ui_diff, emit_harmony_diff, send}
use unidaw.Engine.Commands.{
  require_clip_version, require_harmony_version, apply_as, apply_undo_entry, guarded, undo_top,
  redo_top, entry_chord,
}
use unidaw.Engine.Sound.{IsSound, same-IsSound}
use unidaw.Engine.Kept.{
  apply_add_note-IsSound, apply_remove_note-IsSound, apply_add_chord-IsSound,
  apply_remove_chord-IsSound, add_or_update_harmony-IsSound, remove_harmony-IsSound,
}

-- A step of the engine that keeps it sound.
abbrev pub Keeps : (Engine → Engine) → Type 0
Keeps f = (e : Engine) → IsSound e → IsSound (f e)

pub apply_as-IsSound :
    (type : UndoType) (u : UndoEntry) (rec : Bool) → Keeps (λ e. (apply_as type u rec e).1)
apply_as-IsSound UndoType.add_note u rec e s = apply_add_note-IsSound e s u.track_id _ _ _ _ _ rec _
apply_as-IsSound UndoType.remove_note u rec e s = apply_remove_note-IsSound e s u.track_id _ _ _ rec
apply_as-IsSound UndoType.add_harmony u rec e s =
    add_or_update_harmony-IsSound e s u.nanotick _ _ rec
apply_as-IsSound UndoType.remove_harmony u rec e s = remove_harmony-IsSound e s u.nanotick rec
apply_as-IsSound UndoType.update_harmony u rec e s =
    add_or_update_harmony-IsSound e s u.nanotick _ _ rec
apply_as-IsSound UndoType.add_chord u rec e s =
    apply_add_chord-IsSound e s u.track_id _ (entry_chord u) rec _
apply_as-IsSound UndoType.remove_chord u rec e s = apply_remove_chord-IsSound e s u.track_id _ rec

replay-IsSound : (u : UndoEntry) → Keeps (λ e. (apply_undo_entry u false e).1)
unfolding apply_undo_entry
replay-IsSound u e s = apply_as-IsSound u.type u false e s

-- A replay, whose entry goes to a stack if it went through.
module _ (e : Engine) (s : IsSound e) where
  pub undo_top-IsSound : IsSound (undo_top e)
  unfolding undo_top
  undo_top-IsSound = go e.undo_stack refl
    where
      go : (us : List UndoEntry) → e.undo_stack ≡ us → IsSound (undo_top e)
      go [] z = rw (z, undo_top) s
      go (u ∷ us) z =
          let out = apply_undo_entry u false (record e { undo_stack = us }) in
          let kept : IsSound out.1 =
            replay-IsSound u (record e { undo_stack = us })
              (same-IsSound {e = e} refl refl refl refl s) in
          elim (Bool-cases out.0) [
            | inl y ↦ rw (z, y, undo_top) (same-IsSound {e = out.1} refl refl refl refl kept)
            | inr n ↦ rw (z, n, undo_top) kept
          ]

  pub redo_top-IsSound : IsSound (redo_top e)
  unfolding redo_top
  redo_top-IsSound = go e.redo_stack refl
    where
      go : (us : List UndoEntry) → e.redo_stack ≡ us → IsSound (redo_top e)
      go [] z = rw (z, redo_top) s
      go (u ∷ us) z =
          let out = apply_undo_entry u false (record e { redo_stack = us }) in
          let kept : IsSound out.1 =
            replay-IsSound u (record e { redo_stack = us })
              (same-IsSound {e = e} refl refl refl refl s) in
          elim (Bool-cases out.0) [
            | inl y ↦ rw (z, y, redo_top) (same-IsSound {e = out.1} refl refl refl refl kept)
            | inr n ↦ rw (z, n, redo_top) kept
          ]

  pub clip_guard-IsSound : (base : ℕ) → IsSound (require_clip_version base e).1
  unfolding require_clip_version emit_ui_diff send
  clip_guard-IsSound base =
      elim (Bool-cases (require_matching_clip_version base e.clip_version no_diff).0) [
        | inl y ↦ rw (y, require_clip_version) s
        | inr n ↦ rw (n, require_clip_version) (same-IsSound {e = e} refl refl refl refl s)
      ]

  pub harmony_guard-IsSound : (base : ℕ) → IsSound (require_harmony_version base e).1
  unfolding require_harmony_version emit_harmony_diff send
  harmony_guard-IsSound base = elim (Bool-cases (base == e.harmony_version)) [
    | inl y ↦ rw (y, require_harmony_version) s
    | inr n ↦ rw (n, require_harmony_version) (same-IsSound {e = e} refl refl refl refl s)
  ]

pub guarded-IsSound :
    (g : Bool × Engine) (act : Engine → Engine) → IsSound g.1 → Keeps act → IsSound (guarded g act)
guarded-IsSound (true, e) act s k = k e s
guarded-IsSound (false, e) act s k = s
