-- ===== src/Latency/Blocks.antt =====
-- What apps/latency_manager.h gives for the starts of blocks.
use unidaw.Base.{
  ℕ, ◌+◌, ◌-◌, ◌*◌, ◌%◌, ◌^◌, ◌<◌, ◌≡◌, arith, true, ltb, leb, suc, inl, inr, ap, ◌∙◌, Bool-cases,
  if◌then◌else◌,
}
use unidaw.Latency.{init, get_compensated_start}

-- With `n + 1` blocks in the pipeline whose samples fit into 32 bits, a plugin gets for block `k`
-- the start of the block `n` before it, and 0 for the first `n` blocks.
pub get_compensated_start_lem :
    (block_size n k : ℕ)
    → n * block_size < 2 ^ 32
    → get_compensated_start (init block_size (suc n)) (k * block_size) ≡ (k - n) * block_size
get_compensated_start_lem block_size n k fits = elim (Bool-cases (leb n k)) [
  | inl full ↦ rw latency (from (split (k - n) n k (ground arith)))
  | inr filling ↦ rw latency (first (ground arith) (split (n - k) k n (ground arith)))
]
  where
    latency : (init block_size (suc n)).latency_samples ≡ n * block_size
    latency =
        rw positive (ap (λ m. (m * block_size) % 2 ^ 32) (last n) ∙ small (n * block_size) fits)
      where
        positive : ltb 0 (suc n) ≡ true
        positive = ground arith

        last : (m : ℕ) → suc m - 1 ≡ m
        last m = omega arith

        small : (m : ℕ) → m < 2 ^ 32 → m % 2 ^ 32 ≡ m
        small m h = omega arith

    split : (d a b : ℕ) → d + a ≡ b → d * block_size + a * block_size ≡ b * block_size
    split d a b e = grind (arith, e)

    from :
        (k - n) * block_size + n * block_size ≡ k * block_size
        → (if leb (n * block_size) (k * block_size) then k * block_size - n * block_size else 0)
          ≡ (k - n) * block_size
    from e = ground (arith, e)

    first :
        k - n ≡ 0
        → (n - k) * block_size + k * block_size ≡ n * block_size
        → (if leb (n * block_size) (k * block_size) then k * block_size - n * block_size else 0)
          ≡ (k - n) * block_size
    first none e = rw none (ground (arith, e))
