-- ===== src/Shm/Layout.antt =====
-- The sections of the shared memory are aligned, in order, and do not overlap.
use unidaw.Base.{ℕ, ◌+◌, ◌*◌, ◌%◌, ◌^◌, ◌≤◌, ◌≡◌}
use unidaw.Shm.{Sizes, after, ui_layout}

-- A section that follows an aligned offset, after `i` sections of less than 2^41 bytes each.
record Section (i offset bytes next : ℕ) : Type 0 where
  even : next % 64 ≡ 0
  holds : offset + bytes ≤ next
  low : next ≤ (i + 1) * 2 ^ 41

-- Where the last section ends.
abbrev ui_end : Sizes → (n m : ℕ) → ℕ
ui_end s n m = after (ui_layout s n m).ui_harmony_offset s.ui_harmony
