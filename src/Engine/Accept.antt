-- ===== src/Engine/Accept.antt =====
-- The version guards of the commands: what is accepted goes through, what is stale does not.
use unidaw.Base.{ℕ, ◌≡◌, refl, ap, true, ◌==◌, arith}
use unidaw.Payload.Commands.{UiCommandPayload}
use unidaw.Edit.{require_matching_clip_version}
use unidaw.Engine.{Engine}
use unidaw.Engine.Commands.{
  guarded, require_clip_version, require_harmony_version, undo_top, redo_top, undo, redo,
  write_harmony, delete_harmony, write_note, do_write_note, do_write_harmony, do_delete_harmony,
}

same_version : {a b : ℕ} → a ≡ b → (a == b) ≡ true
same_version h = ground arith

pub clip_version_matches :
    (base : ℕ) (e : Engine) → base ≡ e.clip_version → require_clip_version base e ≡ (true, e)
unfolding require_clip_version require_matching_clip_version
clip_version_matches base e h = rw (same_version h, require_clip_version) refl

pub harmony_version_matches :
    (base : ℕ) (e : Engine) → base ≡ e.harmony_version → require_harmony_version base e ≡ (true, e)
unfolding require_harmony_version
harmony_version_matches base e h = rw (same_version h, require_harmony_version) refl

module _ (q : UiCommandPayload) (e : Engine) where
  module _ (h : q.base_version ≡ e.clip_version) where
    pub undo_accepted : undo q e ≡ undo_top e
    unfolding undo
    undo_accepted = ap (λ g. guarded g undo_top) (clip_version_matches q.base_version e h)

    pub redo_accepted : redo q e ≡ redo_top e
    unfolding redo
    redo_accepted = ap (λ g. guarded g redo_top) (clip_version_matches q.base_version e h)

    pub write_note_accepted : write_note q e ≡ do_write_note q e
    unfolding write_note
    write_note_accepted =
        ap (λ g. guarded g (do_write_note q)) (clip_version_matches q.base_version e h)

  module _ (h : q.base_version ≡ e.harmony_version) where
    pub write_harmony_accepted : write_harmony q e ≡ do_write_harmony q e
    unfolding write_harmony
    write_harmony_accepted =
        ap (λ g. guarded g (do_write_harmony q)) (harmony_version_matches q.base_version e h)

    pub delete_harmony_accepted : delete_harmony q e ≡ do_delete_harmony q e
    unfolding delete_harmony
    delete_harmony_accepted =
        ap (λ g. guarded g (do_delete_harmony q)) (harmony_version_matches q.base_version e h)
