-- ===== src/Engine/Lost.antt =====
-- Two edits of the song that were made against the same version of the clips.
use unidaw.Base.{
  ℕ, ◌≡◌, ◌≢◌, ◌⊎◌, refl, sym, ap, subst, ◌∙◌, true, false, List, Option, none, inl, inr,
  Bool-cases, ◌==◌, arith,
}
use unidaw.Engine.{Engine, emit_ui_diff, send}
use unidaw.Payload.Commands.{UiCommandPayload, UiChordCommandPayload}
use unidaw.Engine.Commands
use unidaw.Engine.Commands.{
  guarded, require_clip_version, do_write_note, do_delete_note, do_write_chord, do_delete_chord,
  undo_top, redo_top, asked_chord, apply_as, apply_undo_entry,
}
use unidaw.Engine.Handle.{UiCommand, handle_ui_entry}
use unidaw.Engine.Accept.{clip_version_matches}
use unidaw.Engine.Bumps.{
  Bumps, add_note-Bumps, remove_note-Bumps, add_chord-Bumps, undo_top-Bumps, redo_top-Bumps,
  delete_chord-Bumps,
}
use unidaw.Engine.Stale.{resync_clip, clip_version_stale}

-- The commands on notes and chords, and Undo and Redo.
pub data SongEdit : Type 0 where
  write_note delete_note undo redo : UiCommandPayload → SongEdit
  write_chord delete_chord : UiChordCommandPayload → SongEdit

abbrev pub as_command : SongEdit → UiCommand
as_command (SongEdit.write_note p) = UiCommand.write_note p
as_command (SongEdit.delete_note p) = UiCommand.delete_note p
as_command (SongEdit.undo p) = UiCommand.undo p
as_command (SongEdit.redo p) = UiCommand.redo p
as_command (SongEdit.write_chord p) = UiCommand.write_chord p
as_command (SongEdit.delete_chord p) = UiCommand.delete_chord p

-- The version of the clips that it was made against.
abbrev pub base_of : SongEdit → ℕ
base_of (SongEdit.write_note p) = p.base_version
base_of (SongEdit.delete_note p) = p.base_version
base_of (SongEdit.undo p) = p.base_version
base_of (SongEdit.redo p) = p.base_version
base_of (SongEdit.write_chord p) = p.base_version
base_of (SongEdit.delete_chord p) = p.base_version

guarded_moves :
    (v : ℕ) (e : Engine) (act : Engine → Engine)
    → ((x : Engine) → Bumps x (act x))
    → let after = guarded (require_clip_version v e) act in
      (after.tracks ≡ e.tracks) ⊎ (v ≢ after.clip_version)
unfolding emit_ui_diff send
guarded_moves v e act h = elim (Bool-cases (v == e.clip_version)) [
  | inl y ↦
      subst (λ g. ((guarded g act).tracks ≡ e.tracks) ⊎ (v ≢ (guarded g act).clip_version))
        (sym (clip_version_matches v e (same y)))
        (elim (h e) [ inl p ↦ inl p | inr q ↦ inr (λ z. omega (arith, same y, q, z)) ])
  | inr n ↦
      subst (λ g. ((guarded g act).tracks ≡ e.tracks) ⊎ (v ≢ (guarded g act).clip_version))
        (sym (clip_version_stale v e (λ z. ground arith))) (inl refl)
]
  where
    same : (v == e.clip_version) ≡ true → v ≡ e.clip_version
    same y = ground arith

module _ (sort : ℕ → List (ℕ × ℕ) → Option (List ℕ)) (out_edges : List (ℕ × ℕ) → ℕ → List ℕ) where
  edit_moves :
      (a : SongEdit) (e : Engine)
      → let after = handle_ui_entry sort out_edges (as_command a) e in
        (after.tracks ≡ e.tracks) ⊎ (base_of a ≢ after.clip_version)
  unfolding handle_ui_entry Commands.write_note Commands.delete_note Commands.write_chord
      Commands.delete_chord Commands.undo Commands.redo
  edit_moves (SongEdit.write_note p) e =
      guarded_moves p.base_version e (do_write_note p) (add_note-Bumps _ _ _ _ _ _ _ _)
  edit_moves (SongEdit.delete_note p) e =
      guarded_moves p.base_version e (do_delete_note p) (remove_note-Bumps _ _ _ _ _)
  edit_moves (SongEdit.undo p) e = guarded_moves p.base_version e undo_top undo_top-Bumps
  edit_moves (SongEdit.redo p) e = guarded_moves p.base_version e redo_top redo_top-Bumps
  edit_moves (SongEdit.write_chord p) e =
      guarded_moves p.base_version e (do_write_chord p)
        (add_chord-Bumps p.track_id _ (asked_chord p) true none)
  edit_moves (SongEdit.delete_chord p) e =
      guarded_moves p.base_version e (do_delete_chord p) (delete_chord-Bumps p)

  edit_stale :
      (b : SongEdit) (e : Engine)
      → base_of b ≢ e.clip_version
      → handle_ui_entry sort out_edges (as_command b) e ≡ resync_clip e
  unfolding handle_ui_entry Commands.write_note Commands.delete_note Commands.write_chord
      Commands.delete_chord Commands.undo Commands.redo
  edit_stale b e h = by_edit b (clip_version_stale (base_of b) e h)
    where
      by_edit :
          (c : SongEdit)
          → require_clip_version (base_of c) e ≡ (false, resync_clip e)
          → handle_ui_entry sort out_edges (as_command c) e ≡ resync_clip e
      by_edit (SongEdit.write_note p) q = ap (λ g. guarded g (do_write_note p)) q
      by_edit (SongEdit.delete_note p) q = ap (λ g. guarded g (do_delete_note p)) q
      by_edit (SongEdit.undo p) q = ap (λ g. guarded g undo_top) q
      by_edit (SongEdit.redo p) q = ap (λ g. guarded g redo_top) q
      by_edit (SongEdit.write_chord p) q = ap (λ g. guarded g (do_write_chord p)) q
      by_edit (SongEdit.delete_chord p) q = ap (λ g. guarded g (do_delete_chord p)) q

  -- Of two commands on notes and chords, or Undo and Redo, that were made against the same version of
  -- the clips, only one changes the tracks: when the first has changed them, whatever it was, the
  -- second does nothing but tell the UI to resync to the new version.
  pub no_lost_edit :
      (a b : SongEdit) (e : Engine)
      → base_of a ≡ base_of b
      → let after = handle_ui_entry sort out_edges (as_command a) e in
        (after.tracks ≡ e.tracks)
        ⊎ (handle_ui_entry sort out_edges (as_command b) after ≡ resync_clip after)
  no_lost_edit a b e same = elim (edit_moves a e) [
    | inl kept ↦ inl kept
    | inr moved ↦ inr (edit_stale b _ (λ z. moved (same ∙ z)))
  ]
