-- ===== src/Engine/LostHarmony.antt =====
-- A command on the harmony that was made before another one changed it.
use unidaw.Base.{
  ℕ, ◌≡◌, ◌≢◌, ◌⊎◌, refl, sym, ap, subst, true, List, Option, inl, inr, Bool-cases, ◌==◌, arith,
}
use unidaw.Payload.Commands.{UiCommandPayload}
use unidaw.Engine.{Engine, emit_ui_diff, emit_harmony_diff, send}
use unidaw.Engine.Commands
use unidaw.Engine.Commands.{
  guarded, require_clip_version, require_harmony_version, do_write_harmony, do_delete_harmony,
  undo_top, redo_top,
}
use unidaw.Engine.Handle.{UiCommand, handle_ui_entry}
use unidaw.Engine.Accept.{clip_version_matches, harmony_version_matches}
use unidaw.Engine.Stale.{resync_harmony, clip_version_stale, harmony_version_stale}
use unidaw.Engine.Renews.{Renews, write-Renews, erase-Renews, undo_top-Renews, redo_top-Renews}

-- The commands that may change the harmony, and those that have its version with them.
pub data HarmonyChange : Type 0 where
  write_harmony delete_harmony undo redo : UiCommandPayload → HarmonyChange

pub data HarmonyEdit : Type 0 where
  write_harmony delete_harmony : UiCommandPayload → HarmonyEdit

abbrev pub change_command : HarmonyChange → UiCommand
change_command (HarmonyChange.write_harmony p) = UiCommand.write_harmony p
change_command (HarmonyChange.delete_harmony p) = UiCommand.delete_harmony p
change_command (HarmonyChange.undo p) = UiCommand.undo p
change_command (HarmonyChange.redo p) = UiCommand.redo p

abbrev pub edit_command : HarmonyEdit → UiCommand
edit_command (HarmonyEdit.write_harmony p) = UiCommand.write_harmony p
edit_command (HarmonyEdit.delete_harmony p) = UiCommand.delete_harmony p

-- The version of the harmony that it was made against.
abbrev pub harmony_base : HarmonyEdit → ℕ
harmony_base (HarmonyEdit.write_harmony p) = p.base_version
harmony_base (HarmonyEdit.delete_harmony p) = p.base_version

clip_guarded :
    (v : ℕ) (e : Engine) (act : Engine → Engine)
    → Renews e (act e)
    → Renews e (guarded (require_clip_version v e) act)
unfolding emit_ui_diff send
clip_guarded v e act h = elim (Bool-cases (v == e.clip_version)) [
  | inl y ↦ subst (λ g. Renews e (guarded g act)) (sym (clip_version_matches v e (ground arith))) h
  | inr n ↦
      subst (λ g. Renews e (guarded g act)) (sym (clip_version_stale v e (λ z. ground arith)))
        (inl refl)
]

harmony_guarded :
    (v : ℕ) (e : Engine) (act : Engine → Engine)
    → Renews e (act e)
    → Renews e (guarded (require_harmony_version v e) act)
unfolding emit_harmony_diff send
harmony_guarded v e act h = elim (Bool-cases (v == e.harmony_version)) [
  | inl y ↦
      subst (λ g. Renews e (guarded g act)) (sym (harmony_version_matches v e (ground arith))) h
  | inr n ↦
      subst (λ g. Renews e (guarded g act)) (sym (harmony_version_stale v e (λ z. ground arith)))
        (inl refl)
]

module _ (sort : ℕ → List (ℕ × ℕ) → Option (List ℕ)) (out_edges : List (ℕ × ℕ) → ℕ → List ℕ) where
  change-Renews :
      (a : HarmonyChange) (e : Engine)
      → Renews e (handle_ui_entry sort out_edges (change_command a) e)
  unfolding handle_ui_entry Commands.write_harmony Commands.delete_harmony Commands.undo
      Commands.redo
  change-Renews (HarmonyChange.write_harmony p) e =
      harmony_guarded p.base_version e (do_write_harmony p) (write-Renews _ _ _ true e)
  change-Renews (HarmonyChange.delete_harmony p) e =
      harmony_guarded p.base_version e (do_delete_harmony p) (erase-Renews _ true e)
  change-Renews (HarmonyChange.undo p) e =
      clip_guarded p.base_version e undo_top (undo_top-Renews e)
  change-Renews (HarmonyChange.redo p) e =
      clip_guarded p.base_version e redo_top (redo_top-Renews e)

  edit_stale :
      (b : HarmonyEdit) (e : Engine)
      → harmony_base b ≢ e.harmony_version
      → handle_ui_entry sort out_edges (edit_command b) e ≡ resync_harmony e
  unfolding handle_ui_entry Commands.write_harmony Commands.delete_harmony
  edit_stale (HarmonyEdit.write_harmony p) e h =
      ap (λ g. guarded g (do_write_harmony p)) (harmony_version_stale p.base_version e h)
  edit_stale (HarmonyEdit.delete_harmony p) e h =
      ap (λ g. guarded g (do_delete_harmony p)) (harmony_version_stale p.base_version e h)

  -- When a WriteHarmony, a DeleteHarmony, an Undo or a Redo has changed the harmony events, a
  -- WriteHarmony or DeleteHarmony that was made against the version of before does nothing but tell
  -- the UI to resync to the new version.
  pub no_lost_harmony :
      (a : HarmonyChange) (b : HarmonyEdit) (e : Engine)
      → harmony_base b ≡ e.harmony_version
      → let after = handle_ui_entry sort out_edges (change_command a) e in
        (after.harmony_events ≡ e.harmony_events)
        ⊎ (handle_ui_entry sort out_edges (edit_command b) after ≡ resync_harmony after)
  no_lost_harmony a b e same = elim (change-Renews a e) [
    | inl kept ↦ inl kept
    | inr moved ↦ inr (edit_stale b _ (λ z. omega (arith, same, moved, z)))
  ]
