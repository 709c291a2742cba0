-- ===== src/Base/Mask.antt =====
-- `x & ~(a - 1)` for a power of two `a`: the multiple of `a` at or below `x`.
use Prim.Native.Nat.{bit_and}
use package.unidaw.Base.{ℕ, zero, suc, ◌+◌, ◌-◌, ◌*◌, ◌/◌, ◌%◌, ◌≤◌, ◌<◌, ◌≡◌, ap, ◌∙◌, arith}
use package.unidaw.Base.Bits.{bit_and_step, pow2, pow2_pos, bit_and-mask}
use native.Mathlib.Nat.{mod-eq_of_lt}

-- `2 ^ (k + j)`, as `k` doublings of `2 ^ j`.
unfoldable pub up : ℕ → ℕ → ℕ
up zero j = pow2 j
up (suc k) j = up k j * 2

pub pow2-le-up : (k j : ℕ) → pow2 k ≤ up k j
unfolding pow2 up
pow2-le-up zero j = omega (arith, pow2_pos j)
pow2-le-up (suc k) j = omega (arith, pow2-le-up k j)

abbrev pub Multiple : (k x r : ℕ) → Type 0
Multiple k x r = (q : ℕ) × (r ≡ q * pow2 k) × (r ≤ x) × (x < r + pow2 k)

halves : (a b : ℕ) → b ≤ a → (a * 2 - b * 2) / 2 ≡ a - b
halves a b h = omega arith

doubles : (a b : ℕ) → (a * 2 - b * 2) % 2 ≡ 0
doubles a b = omega arith

pub bit_and-high : (k j x : ℕ) → x < up k j → Multiple k x (bit_and x (up k j - pow2 k))
unfolding pow2 up
bit_and-high zero j x h =
    let e : bit_and x (pow2 j - 1) ≡ x = bit_and-mask j x ∙ mod-eq_of_lt h in
    (x, omega (arith, e), omega (arith, e), omega (arith, e))
bit_and-high (suc k) j x h =
    let (q, e, lo, hi) = bit_and-high k j (x / 2) (omega arith) in
    let step = bit_and_step x (up k j * 2 - pow2 k * 2) in
    let half = ap (bit_and (x / 2)) (halves (up k j) (pow2 k) (pow2-le-up k j)) in
    let even = doubles (up k j) (pow2 k) in
    (
      q,
      omega (arith, e, step, half, even),
      omega (arith, lo, step, half, even),
      omega (arith, hi, step, half, even),
    )
