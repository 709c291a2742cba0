-- ===== src/Base/Bits.antt =====
-- Laws of `&` that hold at variables: a mask of ones keeps the low digits, and
-- `v & (v - 1)` vanishes only at powers of two.
use Prim.Native.Nat.{bit_and, digits, bit_and-bitwise}
use native.Mathlib.Nat.{mul-add-mod_self_left, mod-eq_of_lt, mod-lt, div-add-mod}
use native.Mathlib.Decide.{ℕ_discrete}
use package.unidaw.Base.{
  ℕ, zero, suc, ◌+◌, ◌-◌, ◌*◌, ◌/◌, ◌%◌, ◌≤◌, ◌<◌, min, ◌≡◌, refl, sym, ap, subst, ◌∙◌, ◌≢◌, arith,
}

-- `bit_and` runs through the binary digits of its first argument, given as many rounds as that.
abbrev rounds : ℕ → ℕ → ℕ → ℕ
rounds = digits (λ y. zero) min

one_more : (n x y : ℕ) → x ≤ n → rounds (suc n) x y ≡ rounds n x y
one_more zero zero y le = refl
one_more zero (suc x) y le = absurd (omega arith)
one_more (suc n) zero y le = refl
one_more (suc n) (suc x) y le = omega (arith, one_more n (suc x / 2) (y / 2) (omega arith))

-- Rounds beyond the first argument change nothing.
enough : (k x y : ℕ) → x ≤ k → rounds k x y ≡ rounds x x y
enough zero zero y le = refl
enough zero (suc x) y le = absurd (omega arith)
enough (suc k) x y le = elim (ℕ_discrete x (suc k)) [
  | yes same ↦ ap (λ n. rounds n x y) (sym same)
  | no less ↦ one_more k x y (omega arith) ∙ enough k x y (omega arith)
]

-- The lowest digit apart.
pub bit_and_step : (x y : ℕ) → bit_and x y ≡ bit_and (x / 2) (y / 2) * 2 + min (x % 2) (y % 2)
bit_and_step zero y = omega (arith, bit_and-bitwise zero y, bit_and-bitwise zero (y / 2))
bit_and_step (suc x) y = omega (
  arith,
  enough x (suc x / 2) (y / 2) (omega arith),
  bit_and-bitwise (suc x / 2) (y / 2),
  bit_and-bitwise (suc x) y,
)

-- 2 ^ k without a variable exponent under `^`, so that the halving below is linear.
unfoldable pub pow2 : ℕ → ℕ
pow2 zero = 1
pow2 (suc k) = pow2 k * 2

pub pow2_pos : (k : ℕ) → 0 < pow2 k
unfolding pow2
pow2_pos zero = omega arith
pow2_pos (suc k) = omega (arith, pow2_pos k)

mod-double : (a m : ℕ) → 0 < m → a % (m * 2) ≡ a / 2 % m * 2 + a % 2
mod-double a m h =
    subst (λ x. x % (m * 2) ≡ low) (sym split)
      (mul-add-mod_self_left (m * 2) (a / 2 / m) low ∙ mod-eq_of_lt below)
  where
    low : ℕ
    low = a / 2 % m * 2 + a % 2

    below : low < m * 2
    below = omega (arith, mod-lt (a / 2) h)

    split : a ≡ m * 2 * (a / 2 / m) + low
    split = omega (arith, div-add-mod (a / 2) m)

bit_and-zero : (n a : ℕ) → a ≤ n → bit_and a 0 ≡ 0
bit_and-zero n zero h = refl
bit_and-zero zero (suc a) h = absurd (omega arith)
bit_and-zero (suc n) (suc a) h =
    omega (arith, bit_and_step (suc a) 0, bit_and-zero n (suc a / 2) (omega arith))

half_mask : (m : ℕ) → 0 < m → (m * 2 - 1) / 2 ≡ m - 1
half_mask m h = omega arith

-- `a & (2^k - 1)` is `a % 2^k`.
pub bit_and-mask : (k a : ℕ) → bit_and a (pow2 k - 1) ≡ a % pow2 k
unfolding pow2
bit_and-mask zero a = omega (arith, bit_and-zero a a (omega arith))
bit_and-mask (suc k) a = omega (
  arith,
  bit_and_step a (pow2 k * 2 - 1),
  ap (bit_and (a / 2)) (half_mask (pow2 k) (pow2_pos k)),
  bit_and-mask k (a / 2),
  mod-double a (pow2 k) (pow2_pos k),
  pow2_pos k,
)

bit_and_self : (n a : ℕ) → a ≤ n → bit_and a a ≡ a
bit_and_self n zero h = refl
bit_and_self zero (suc a) h = absurd (omega arith)
bit_and_self (suc n) (suc a) h =
    omega (arith, bit_and_step (suc a) (suc a), bit_and_self n (suc a / 2) (omega arith))

-- A number with one binary digit set is a power of two.
pub bit_and-pred : (n v : ℕ) → v ≤ n → v ≢ 0 → bit_and v (v - 1) ≡ 0 → (k : ℕ) × (v ≡ pow2 k)
unfolding pow2
bit_and-pred zero v h ne e = absurd (omega arith)
bit_and-pred (suc n) v h ne e = elim (ℕ_discrete (v % 2) 0) [
  | yes even ↦
      let (k, p) =
        bit_and-pred n (v / 2) (omega arith) (omega arith)
          (omega (arith, step, ap (bit_and (v / 2)) (half_pred even))) in
      (suc k, omega (arith, p))
  | no odd ↦ (
    0,
    omega (
      arith,
      step,
      ap (bit_and (v / 2)) (half_pred_odd odd),
      bit_and_self (v / 2) (v / 2) (omega arith),
    ),
  )
]
  where
    step : bit_and v (v - 1) ≡ bit_and (v / 2) ((v - 1) / 2) * 2 + min (v % 2) ((v - 1) % 2)
    step = bit_and_step v (v - 1)

    half_pred : v % 2 ≡ 0 → (v - 1) / 2 ≡ v / 2 - 1
    half_pred even = omega arith

    half_pred_odd : v % 2 ≢ 0 → (v - 1) / 2 ≡ v / 2
    half_pred_odd odd = omega arith
