-- ===== src/Base/Count.antt =====
-- How many elements pass a test, through insertions and removals.
use unidaw.Base.{
  ℕ, zero, suc, ◌+◌, ◌≤◌, ◌≡◌, refl, ap, Bool, true, false, List, [], ◌∷◌, ◌++◌, some, arith,
  insert_at, remove_if, extract, extract-some, All,
}

abbrev pub one_if : Bool → ℕ
one_if true = 1
one_if false = 0

module _ {ℓ} {A : Type ℓ} where
  unfoldable pub count : (A → Bool) → List A → ℕ
  count p [] = 0
  count p (x ∷ xs) = one_if (p x) + count p xs

  pub count-append : (p : A → Bool) (xs ys : List A) → count p (xs ++ ys) ≡ count p xs + count p ys
  unfolding count
  count-append p [] ys = omega arith
  count-append p (x ∷ xs) ys = omega (arith, count-append p xs ys)

  pub count-insert_at :
      (p : A → Bool) (xs : List A) (i : ℕ) (a : A)
      → count p (insert_at xs i a) ≡ one_if (p a) + count p xs
  unfolding count
  count-insert_at p xs zero a = refl
  count-insert_at p [] (suc i) a = refl
  count-insert_at p (x ∷ xs) (suc i) a = omega (arith, count-insert_at p xs i a)

  pub count-remove_if-le : (p q : A → Bool) (xs : List A) → count p (remove_if q xs) ≤ count p xs
  unfolding count
  count-remove_if-le p q [] = omega arith
  count-remove_if-le p q (x ∷ xs) = ground (arith, count-remove_if-le p q xs)

  pub count_none : (p : A → Bool) (xs : List A) → All (λ x. p x ≡ false) xs → count p xs ≡ 0
  unfolding count
  count_none p [] h = refl
  count_none p (x ∷ xs) h = ground (arith, count_none p xs h.1)

  -- What `extract` takes out is one element, which passes its own test.
  pub count-extract :
      (p q : A → Bool) (xs : List A) {a : A} {rest : List A}
      → extract q xs ≡ some (a, rest)
      → count p xs ≡ one_if (p a) + count p rest
  unfolding count
  count-extract p q xs {a} e =
      let found = extract-some q xs e in
      omega (
        arith,
        ap (count p) found.whole,
        ap (count p) found.left,
        count-append p found.before (a ∷ found.after),
        count-append p found.before found.after,
      )

  pub none_of_count : (p : A → Bool) (xs : List A) → count p xs ≡ 0 → All (λ x. p x ≡ false) xs
  unfolding count
  none_of_count p [] h = tt
  none_of_count p (x ∷ xs) h = (ground arith, none_of_count p xs (omega (arith, h)))

  -- A removal leaves alone the elements that fail its test.
  pub count-remove_if_of :
      (p q : A → Bool) (xs : List A)
      → ((x : A) → p x ≡ true → q x ≡ false)
      → count p (remove_if q xs) ≡ count p xs
  unfolding count
  count-remove_if_of p q [] h = refl
  count-remove_if_of p q (x ∷ xs) h = ground (arith, count-remove_if_of p q xs h, h x)
