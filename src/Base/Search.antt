-- ===== src/Base/Search.antt =====
-- The <algorithm> searches: std::find_if, std::remove_if, std::any_of, std::lower_bound. An
-- iterator is an index, and the past-the-end iterator of a search that fails is `none`.
use Prim.Native.Nat.{ℕ, zero, suc, ◌≤◌}
use mathlib.Core.Path.{◌≡◌, refl, sym, subst}
use mathlib.Core.Bool.{Bool, true, false, ◌||◌}
use mathlib.Core.List.{List, [], ◌∷◌, ◌++◌}
use mathlib.Core.Option
use mathlib.Core.Option.{Option, none, some}
use native.Mathlib.Omega.{arith}
use mathlib.Core.Logic.{inl, inr}
use package.unidaw.Base.Tests.{ltb, if◌then◌else◌, Bool-cases, Option-cases}
use package.unidaw.Base.Lists.{All, All-imp, All-append, All-split, All-insert_at, insert_at}

module _ {ℓ} {A : Type ℓ} where
  -- The index of the first element that passes.
  abbrev pub find_if : (A → Bool) → List A → Option ℕ
  find_if p [] = none
  find_if p (x ∷ xs) = if p x then some 0 else Option.map suc (find_if p xs)

  -- `v.erase(remove_if(v.begin(), v.end(), p), v.end())`.
  abbrev pub remove_if : (A → Bool) → List A → List A
  remove_if p [] = []
  remove_if p (x ∷ xs) = if p x then remove_if p xs else x ∷ remove_if p xs

  abbrev pub any_of : (A → Bool) → List A → Bool
  any_of p [] = false
  any_of p (x ∷ xs) = p x || any_of p xs

  -- On a sequence that is sorted by `key`, as all are that the code searches, the first position
  -- whose key is not below `tick`.
  abbrev pub lower_bound : (A → ℕ) → List A → ℕ → ℕ
  lower_bound key [] tick = 0
  lower_bound key (x ∷ xs) tick = if ltb (key x) tick then suc (lower_bound key xs tick) else 0

  -- The elements from a position on, while their key is below `limit`.
  abbrev pub take_below : (A → ℕ) → ℕ → List A → List A
  take_below key limit [] = []
  take_below key limit (x ∷ xs) = if ltb (key x) limit then x ∷ take_below key limit xs else []

  -- Ascending by `key`, ties allowed.
  abbrev pub IsSorted : (A → ℕ) → List A → Type ℓ
  IsSorted key [] = Unit
  IsSorted key (x ∷ xs) = All (λ y. key x ≤ key y) xs × IsSorted key xs

  pub All-remove_if {κ} :
      (P : A → Type κ) (p : A → Bool) (xs : List A) → All P xs → All P (remove_if p xs)
  All-remove_if P p [] h = tt
  All-remove_if P p (x ∷ xs) h = ground (arith, All-remove_if P p xs h.1)

  pub remove_if-IsSorted :
      (key : A → ℕ) (p : A → Bool) (xs : List A) → IsSorted key xs → IsSorted key (remove_if p xs)
  remove_if-IsSorted key p [] h = tt
  remove_if-IsSorted key p (x ∷ xs) h =
      ground (arith, remove_if-IsSorted key p xs h.1, All-remove_if (λ y. key x ≤ key y) p xs h.0)

  -- `find_if`, then the element there and the sequence after `erase(it)`.
  abbrev pub extract : (A → Bool) → List A → Option (A × List A)
  extract p [] = none
  extract p (x ∷ xs) = if p x then some (x, xs) else Option.map (λ r. (r.0, x ∷ r.1)) (extract p xs)

  -- What `extract` finds stands between elements that fail the test and the rest.
  pub record Extracted (p : A → Bool) (xs : List A) (a : A) (rest : List A) : Type ℓ where
    pub before : List A
    pub after : List A
    pub whole : xs ≡ before ++ (a ∷ after)
    pub left : rest ≡ before ++ after
    pub passes : p a ≡ true
    pub earlier : All (λ x. p x ≡ false) before

  pub extract-some :
      (p : A → Bool) (xs : List A) {a : A} {rest : List A}
      → extract p xs ≡ some (a, rest)
      → Extracted p xs a rest
  extract-some p [] e = cc
  extract-some p (x ∷ xs) e = elim (Bool-cases (p x)) [
    | inl hit ↦ record {
      before = [];
      after = xs;
      whole = ground arith;
      left = ground arith;
      passes = ground arith;
      earlier = tt;
    }
    | inr miss ↦ elim (Option-cases (extract p xs)) [
      | inl z ↦ ground arith
      | inr ((b, r), f) ↦
          let found = extract-some p xs f in
          record {
            before = x ∷ found.before;
            after = found.after;
            whole = ground (arith, found.whole);
            left = ground (arith, found.left);
            passes = ground (arith, found.passes);
            earlier = (miss, found.earlier);
          }
    ]
  ]

  pub extract-none : (p : A → Bool) (xs : List A) → extract p xs ≡ none → All (λ x. p x ≡ false) xs
  extract-none p [] e = tt
  extract-none p (x ∷ xs) e = ground (arith, extract-none p xs)

  pub All-extract {κ} :
      (P : A → Type κ) (p : A → Bool) (xs : List A) {a : A} {rest : List A}
      → extract p xs ≡ some (a, rest)
      → All P xs
      → P a × All P rest
  All-extract P p xs {a} e h =
      let found = extract-some p xs e in
      let parts = All-split P found.before (a ∷ found.after) (subst (All P) found.whole h) in
      (
        parts.1.0,
        subst (All P) (sym found.left) (All-append P found.before found.after parts.0 parts.1.1),
      )

  IsSorted-remove :
      (key : A → ℕ) (a : A) (xs ys : List A)
      → IsSorted key (xs ++ (a ∷ ys))
      → IsSorted key (xs ++ ys)
  IsSorted-remove key a [] ys h = h.1
  IsSorted-remove key a (x ∷ xs) ys h =
      let parts = All-split (λ y. key x ≤ key y) xs (a ∷ ys) h.0 in
      (All-append (λ y. key x ≤ key y) xs ys parts.0 parts.1.1, IsSorted-remove key a xs ys h.1)

  pub extract-IsSorted :
      (key : A → ℕ) (p : A → Bool) (xs : List A) {a : A} {rest : List A}
      → extract p xs ≡ some (a, rest)
      → IsSorted key xs
      → IsSorted key rest
  extract-IsSorted key p xs {a} e h =
      let found = extract-some p xs e in
      subst (IsSorted key) (sym found.left)
        (IsSorted-remove key a found.before found.after (subst (IsSorted key) found.whole h))

  IsSorted-cons_le :
      (key : A → ℕ) (t : ℕ) (x : A) (xs : List A)
      → t ≤ key x
      → IsSorted key (x ∷ xs)
      → All (λ y. t ≤ key y) xs
  IsSorted-cons_le key t x xs le h =
      All-imp (λ y. key x ≤ key y) (λ y. t ≤ key y) xs (λ y q. omega arith) h.0

  -- Insertion at the lower bound of its key keeps a sorted sequence sorted.
  pub insert_at-IsSorted :
      (key : A → ℕ) (xs : List A) (a : A)
      → IsSorted key xs
      → IsSorted key (insert_at xs (lower_bound key xs (key a)) a)
  insert_at-IsSorted key [] a h = (tt, tt)
  insert_at-IsSorted key (x ∷ xs) a h = elim (Bool-cases (ltb (key x) (key a))) [
    | inl lt ↦ rw lt (
      All-insert_at (λ y. key x ≤ key y) xs (lower_bound key xs (key a)) a (ground arith) h.0,
      insert_at-IsSorted key xs a h.1,
    )
    | inr ge ↦ rw ge ((ground arith, IsSorted-cons_le key (key a) x xs (ground arith) h), h)
  ]

  -- What was inserted among elements that fail the test is what `extract` finds.
  pub extract-insert_at :
      (p : A → Bool) (xs : List A) (i : ℕ) (a : A)
      → All (λ x. p x ≡ false) xs
      → p a ≡ true
      → extract p (insert_at xs i a) ≡ some (a, xs)
  extract-insert_at p xs zero a h pa = ground arith
  extract-insert_at p [] (suc i) a h pa = ground arith
  extract-insert_at p (x ∷ xs) (suc i) a h pa = rw (h.0, extract-insert_at p xs i a h.1 pa)

  pub extract_absent :
      (p : A → Bool) (xs : List A) → All (λ x. p x ≡ false) xs → extract p xs ≡ none
  extract_absent p [] h = refl
  extract_absent p (x ∷ xs) h = rw (h.0, extract_absent p xs h.1)

  pub All-remove_if_self : (p : A → Bool) (xs : List A) → All (λ x. p x ≡ false) (remove_if p xs)
  All-remove_if_self p [] = tt
  All-remove_if_self p (x ∷ xs) = ground (arith, All-remove_if_self p xs)
