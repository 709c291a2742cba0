-- ===== src/Base/Window.antt =====
-- The cells of a circular buffer from a start index on, going round at the capacity. Shared by the
-- event ring and the audio block ring.
use native.Mathlib.Nat.{mod-eq_of_lt, mod-eq-sub-mod, mod-add-mod, add-zero}
use native.Mathlib.Decide.{dec_lt}
use package.unidaw.Base.{
  ℕ, zero, suc, ◌+◌, ◌-◌, ◌%◌, ◌≤◌, ◌<◌, ◌≡◌, refl, ap, ap₂, sym, ◌≢◌, ◌⊎◌, inl, inr, List, [], ◌∷◌,
  ◌++◌, arith, length, get_or, set, get_or-set_self, get_or-set_ne, length-append,
}

not_lt→le : (x c : ℕ) → ¬ (x < c) → c ≤ x
not_lt→le x c h = omega arith

once : (x c : ℕ) → x - c < c → (x - c) % c ≡ x - c
once x c h = mod-eq_of_lt h

-- Once round at most.
pub mod_cases :
    (x cap : ℕ) → x < cap + cap → ((x < cap) × (x % cap ≡ x)) ⊎ ((cap ≤ x) × (x % cap + cap ≡ x))
mod_cases x c h = elim (dec_lt x c) [
  | yes short ↦ inl (short, mod-eq_of_lt short)
  | no long ↦
      inr (omega arith, omega (arith, mod-eq-sub-mod (not_lt→le x c long), once x c (omega arith)))
]

-- Fewer than `cap` steps apart, two places round the buffer are different cells.
pub step-ne : (cap h j n : ℕ) → h < cap → j < n → n < cap → (h + j) % cap ≢ (h + n) % cap
step-ne cap h j n hh hj hn =
    omega (arith, mod_cases (h + j) cap (omega arith), mod_cases (h + n) cap (omega arith))

-- One step less from the next place round.
turn : (cap h n : ℕ) → (h + suc n) % cap ≡ ((h + 1) % cap + n) % cap
turn cap h n = rw mod-add-mod (ap (λ k. k % cap) (omega arith))

module _ {ℓ} {A : Type ℓ} (cap : ℕ) where
  -- The same over any places.
  abbrev pub around : (ℕ → A) → ℕ → ℕ → List A
  around f h zero = []
  around f h (suc n) = around f h n ++ (f ((h + n) % cap) ∷ [])

  pub length-around : (f : ℕ → A) (h n : ℕ) → length (around f h n) ≡ n
  length-around f h zero = refl
  length-around f h (suc n) =
      omega (arith, length-append (around f h n) (f ((h + n) % cap) ∷ []), length-around f h n)

  pub around-ext :
      (f g : ℕ → A) (h n : ℕ)
      → ((j : ℕ) → j < n → f ((h + j) % cap) ≡ g ((h + j) % cap))
      → around f h n ≡ around g h n
  around-ext f g h zero e = refl
  around-ext f g h (suc n) e =
      ap₂ (λ xs v. xs ++ (v ∷ [])) (around-ext f g h n (λ j lt. e j (omega arith)))
        (e n (omega arith))

  pub around-pop :
      (f : ℕ → A) (h n : ℕ) → h < cap → around f h (suc n) ≡ f h ∷ around f ((h + 1) % cap) n
  around-pop f h zero hh = rw (add-zero, mod-eq_of_lt hh)
  around-pop f h (suc n) hh = ap₂ (λ xs i. xs ++ (f i ∷ [])) (around-pop f h n hh) (turn cap h n)

module _ {ℓ} {A : Type ℓ} (d : A) (cap : ℕ) where
  unfoldable pub window : List A → ℕ → ℕ → List A
  window buf h zero = []
  window buf h (suc n) = window buf h n ++ (get_or buf ((h + n) % cap) d ∷ [])

  pub length-window : (buf : List A) (h n : ℕ) → length (window buf h n) ≡ n
  unfolding window
  length-window buf h zero = refl
  length-window buf h (suc n) = omega (
    arith,
    length-append (window buf h n) (get_or buf ((h + n) % cap) d ∷ []),
    length-window buf h n,
  )

  pub window-set_ahead :
      (buf : List A) (h n m : ℕ) (x : A)
      → h < cap
      → n ≤ m
      → m < cap
      → window (set buf ((h + m) % cap) x) h n ≡ window buf h n
  unfolding window
  window-set_ahead buf h zero m x hh le hm = refl
  window-set_ahead buf h (suc n) m x hh le hm =
      rw (window-set_ahead buf h n m x hh (omega arith) hm) (
        ap (λ v. window buf h n ++ (v ∷ []))
          (get_or-set_ne buf x d (λ e. step-ne cap h n m hh le hm (sym e))))

  -- A write to the cell just past the window extends it by what is written.
  pub window-push :
      (buf : List A) (h n : ℕ) (x : A)
      → cap ≤ length buf
      → h < cap
      → n < cap
      → window (set buf ((h + n) % cap) x) h (suc n) ≡ window buf h n ++ (x ∷ [])
  unfolding window
  window-push buf h n x size hh hn = rw (
    window-set_ahead buf h n n x hh (omega arith) hn,
    get_or-set_self buf ((h + n) % cap) x d (omega arith),
  )

  -- The first cell, and the window that starts one further.
  pub window-pop :
      (buf : List A) (h n : ℕ)
      → h < cap
      → window buf h (suc n) ≡ get_or buf h d ∷ window buf ((h + 1) % cap) n
  unfolding window
  window-pop buf h zero hh = rw (add-zero, mod-eq_of_lt hh)
  window-pop buf h (suc n) hh =
      rw (window-pop buf h n hh)
        (ap (λ i. get_or buf h d ∷ (rest ++ (get_or buf i d ∷ []))) (turn cap h n))
    where
      rest : List A
      rest = window buf ((h + 1) % cap) n
