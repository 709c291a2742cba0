-- ===== src/Engine/BlockSlots.antt =====
-- The blocks that a host may still be working on (apps/daw_engine_main.cpp) keep their slots.
use mathlib.Core.Option.{some_inj}
use native.Mathlib.Nat.{mod-add-mod}
use unidaw.Base.{
  zero, suc, if◌then◌else◌, get_elem?, ℕ, ◌+◌, ◌-◌, ◌^◌, ◌%◌, ◌<◌, ◌≤◌, ◌≡◌, ◌≢◌, refl, true, List,
  [], ◌∷◌, some, arith, Bool-cases, inl, inr, subst, sym, ap,
}
use unidaw.Base.Window.{mod_cases}
use unidaw.Engine.{TrackRuntime}
use unidaw.Engine.Blocks.{counts, scan_completed, min_completed, claim_block, sub32, block_index}

-- The scan finds a number that is not above that of any track that counts.
scan_completed-le :
    (completed : TrackRuntime → ℕ) (rs : List TrackRuntime) (i : ℕ) {r : TrackRuntime}
    → get_elem? rs i ≡ some r
    → counts completed r ≡ true
    → let found = scan_completed completed rs in (found.1 ≡ true) × (found.0 ≤ completed r)
unfolding scan_completed
scan_completed-le completed [] i p c = cc
scan_completed-le completed (r' ∷ rs) zero {r} p c =
    subst
      (λ q.
        let found = scan_completed completed (q ∷ rs) in (found.1 ≡ true) × (found.0 ≤ completed r))
      (sym (some_inj.0 p)) (rw c (refl, omega arith))
scan_completed-le completed (r' ∷ rs) (suc i) p c =
    let rest = scan_completed-le completed rs i p c in
    elim (Bool-cases (counts completed r')) [
      | inl b ↦ rw b (refl, omega (arith, rest.1))
      | inr b ↦ rw b rest
    ]

claimed :
    (num completed next playback : ℕ) {id : ℕ}
    → claim_block num completed next playback ≡ some id
    → (id ≡ next) × (sub32 next completed < num)
unfolding claim_block
claimed num completed next playback e = ground arith

-- Fewer than `num` apart, two numbers have different remainders.
slots_apart : (num j id : ℕ) → j < id → id - j < num → j % num ≢ id % num
slots_apart num j id lt near e = omega (
  arith,
  mod_cases (j % num + (id - j)) num (omega arith),
  mod-add-mod j num (id - j),
  ap (λ k. k % num) whole,
)
  where
    whole : j + (id - j) ≡ id
    whole = omega arith

-- When the producer thread makes a block, its slot in the memory of a track's host that counts as
-- active is not that of any block that the host has been given and not completed: those after the
-- last completed block and before the new one. Block numbers have not run through 32 bits.
pub claim_block-free :
    (completed : TrackRuntime → ℕ) (runtimes : List TrackRuntime) (num_blocks playback next i j : ℕ)
    {id : ℕ} {r : TrackRuntime}
    → next < 2 ^ 32
    → get_elem? runtimes i ≡ some r
    → counts completed r ≡ true
    → claim_block num_blocks (min_completed completed runtimes next) next playback ≡ some id
    → completed r < j
    → j < id
    → block_index num_blocks j ≢ block_index num_blocks id
unfolding min_completed
claim_block-free completed runtimes num_blocks playback next i j {id} {r} small p c e after before =
    slots_apart num_blocks j id before (omega (arith, got.0, near, found.1))
  where
    found :
        ((scan_completed completed runtimes).1 ≡ true)
        × ((scan_completed completed runtimes).0 ≤ completed r)
    found = scan_completed-le completed runtimes i p c

    least : ℕ
    least = (scan_completed completed runtimes).0

    got : (id ≡ next) × (sub32 next least < num_blocks)
    got = claimed num_blocks least next playback (
        subst (λ b. claim_block num_blocks (if b then least else next - 1) next playback ≡ some id)
          found.0 e)

    near : next - least < num_blocks
    near =
        omega
          (arith, got.1, found.1, got.0, mod_cases (next + 2 ^ 32 - least) (2 ^ 32) (omega arith))
