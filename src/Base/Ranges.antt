-- ===== src/Base/Ranges.antt =====
-- A binary search followed by a loop up to a bound gives the elements whose key lies in the range.
use unidaw.Base.{
  ℕ, ◌≤◌, ◌≡◌, refl, sym, ◌∙◌, Bool, true, ◌&&◌, not, List, [], ◌∷◌, inl, inr, arith, ltb, leb,
  drop, lower_bound, take_below, remove_if, IsSorted, All, All-imp, Bool-cases,
}

module _ {ℓ} {A : Type ℓ} (key : A → ℕ) where
  -- The specification: all that pass, in order.
  abbrev pub in_range : ℕ → ℕ → A → Bool
  in_range lo hi x = leb lo (key x) && ltb (key x) hi

  abbrev pub select : ℕ → ℕ → List A → List A
  select lo hi = remove_if (λ x. not (in_range lo hi x))

  pub select_above : (lo hi : ℕ) (xs : List A) → All (λ x. hi ≤ key x) xs → select lo hi xs ≡ []
  select_above lo hi [] h = refl
  select_above lo hi (x ∷ xs) h = ground (arith, select_above lo hi xs h.1)

  take_below-eq-select :
      (lo hi : ℕ) (xs : List A)
      → IsSorted key xs
      → All (λ x. lo ≤ key x) xs
      → take_below key hi xs ≡ select lo hi xs
  take_below-eq-select lo hi [] s h = refl
  take_below-eq-select lo hi (x ∷ xs) s h = ground (
    arith,
    take_below-eq-select lo hi xs s.1 h.1,
    select_above lo hi xs,
    All-imp (λ y. key x ≤ key y) (λ y. hi ≤ key y) xs,
  )

  pub range-eq-select :
      (lo hi : ℕ) (xs : List A)
      → IsSorted key xs
      → take_below key hi (drop (lower_bound key xs lo) xs) ≡ select lo hi xs
  range-eq-select lo hi [] s = refl
  range-eq-select lo hi (x ∷ xs) s = elim (Bool-cases (ltb (key x) lo)) [
    | inl below ↦ rw below (range-eq-select lo hi xs s.1 ∙ sym (dropped below))
    | inr from ↦ rw from (take_below-eq-select lo hi (x ∷ xs) s (ground arith, rest (ground arith)))
  ]
    where
      dropped : ltb (key x) lo ≡ true → select lo hi (x ∷ xs) ≡ select lo hi xs
      dropped b = ground arith

      rest : lo ≤ key x → All (λ y. lo ≤ key y) xs
      rest le = All-imp (λ y. key x ≤ key y) (λ y. lo ≤ key y) xs (λ y q. omega arith) s.0
