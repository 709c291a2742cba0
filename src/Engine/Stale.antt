-- ===== src/Engine/Stale.antt =====
-- Commands that were made against an older song.
use unidaw.Base.{ℕ, ◌≡◌, ◌≢◌, refl, false, ◌==◌, arith}
use unidaw.Payload.{UiDiffType, UiHarmonyDiffType, no_diff, no_harmony_diff}
use unidaw.Edit.{require_matching_clip_version}
use unidaw.Engine.{Engine, emit_ui_diff, emit_harmony_diff}
use unidaw.Engine.Commands.{require_clip_version, require_harmony_version}

-- The answer to a stale command: the song as it was, and the current version for a resync.
abbrev pub resync_clip : Engine → Engine
resync_clip e =
    emit_ui_diff
      (record no_diff { diff_type = UiDiffType.resync_needed; clip_version = e.clip_version }) e

abbrev pub resync_harmony : Engine → Engine
resync_harmony e =
    emit_harmony_diff
      (record no_harmony_diff {
        diff_type = UiHarmonyDiffType.resync_needed;
        harmony_version = e.harmony_version;
      })
      e

other_version : {a b : ℕ} → a ≢ b → (a == b) ≡ false
other_version h = ground arith

pub clip_version_stale :
    (base : ℕ) (e : Engine)
    → base ≢ e.clip_version
    → require_clip_version base e ≡ (false, resync_clip e)
unfolding require_clip_version require_matching_clip_version
clip_version_stale base e h = rw (other_version h, require_clip_version) refl

pub harmony_version_stale :
    (base : ℕ) (e : Engine)
    → base ≢ e.harmony_version
    → require_harmony_version base e ≡ (false, resync_harmony e)
unfolding require_harmony_version
harmony_version_stale base e h = rw (other_version h, require_harmony_version) refl
