-- ===== src/Engine/Gather.antt =====
-- The events of a range of ticks, tick by tick.
use unidaw.Base.{
  ℕ, zero, suc, ◌+◌, ◌-◌, ◌<◌, ◌≤◌, ◌≡◌, refl, sym, ap, ap₂, ◌∙◌, List, [], ◌∷◌, ◌++◌, map, arith,
  IsSorted, All-imp,
}
use mathlib.Core.List.{append_assoc, append-nil, map-append}
use native.Mathlib.Nat.{add-zero}
use unidaw.Base.Ranges.{select, select_above}

-- The lists `f 0`, `f 1`, ... of the first `n` numbers, one behind the other.
abbrev pub spread : {A : Type 0} → (ℕ → List A) → ℕ → List A
spread f zero = []
spread f (suc n) = spread f n ++ f n

add_suc : (a b : ℕ) → a + suc b ≡ suc (a + b)
add_suc a b = omega arith

pub spread-add :
    {A : Type 0} (f : ℕ → List A) (a b : ℕ)
    → spread f (a + b) ≡ spread f a ++ spread (λ i. f (a + i)) b
spread-add f a zero = ap (spread f) (add-zero a) ∙ sym (append-nil (spread f a))
spread-add f a (suc b) =
    ap (spread f) (add_suc a b)
    ∙ ap (λ xs. xs ++ f (a + b)) (spread-add f a b)
    ∙ append_assoc (spread f a) (spread (λ i. f (a + i)) b) (f (a + b))

pub spread-ext :
    {A : Type 0} (f g : ℕ → List A) (n : ℕ)
    → ((i : ℕ) → i < n → f i ≡ g i)
    → spread f n ≡ spread g n
spread-ext f g zero h = refl
spread-ext f g (suc n) h =
    ap₂ (λ xs ys. xs ++ ys) (spread-ext f g n (λ i lt. h i (omega arith))) (h n (omega arith))

-- A list with a time.
abbrev pub timed : {A : Type 0} → ℕ → List A → List (ℕ × A)
timed i xs = map (λ x. (i, x)) xs

module _ {A : Type 0} (key : A → ℕ) where
  select_empty : (lo : ℕ) (xs : List A) → select key lo (lo + 0) xs ≡ []
  select_empty lo [] = refl
  select_empty lo (x ∷ xs) = ground (arith, select_empty lo xs)

  select_step :
      (lo n : ℕ) (xs : List A)
      → IsSorted key xs
      → select key lo (lo + suc n) xs
        ≡ select key lo (lo + n) xs ++ select key (lo + n) (lo + n + 1) xs
  select_step lo n [] s = refl
  select_step lo n (x ∷ xs) s = ground (
    arith,
    select_step lo n xs s.1,
    select_above key lo (lo + n) xs,
    All-imp (λ y. key x ≤ key y) (λ y. lo + n ≤ key y) xs,
  )

  timed_step :
      (base lo n : ℕ) (xs : List A)
      → map (λ x. (base + (key x - lo), x)) (select key (lo + n) (lo + n + 1) xs)
        ≡ timed (base + n) (select key (lo + n) (lo + n + 1) xs)
  timed_step base lo n [] = refl
  timed_step base lo n (x ∷ xs) = ground (arith, timed_step base lo n xs)

  pub select-eq-spread :
      (base lo n : ℕ) (xs : List A)
      → IsSorted key xs
      → map (λ x. (base + (key x - lo), x)) (select key lo (lo + n) xs)
        ≡ spread (λ j. timed (base + j) (select key (lo + j) (lo + j + 1) xs)) n
  select-eq-spread base lo zero xs s = ap (map (λ x. (base + (key x - lo), x))) (select_empty lo xs)
  select-eq-spread base lo (suc n) xs s =
      ap (map (λ x. (base + (key x - lo), x))) (select_step lo n xs s)
      ∙ map-append (λ x. (base + (key x - lo), x)) (select key lo (lo + n) xs)
          (select key (lo + n) (lo + n + 1) xs)
      ∙ ap₂ (λ xs ys. xs ++ ys) (select-eq-spread base lo n xs s) (timed_step base lo n xs)
