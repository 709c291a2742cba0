-- ===== src/Base/Lists.antt =====
-- std::vector as a list with native indices. A read out of range is `none`, and a write out of
-- range changes nothing; what the code relies on is proved where it indexes.
use Prim.Native.Nat.{ℕ, zero, suc, ◌+◌, ◌≤◌, ◌<◌}
use mathlib.Core.Path.{◌≡◌, refl, ap, subst}
use mathlib.Core.Logic.{◌≢◌}
use mathlib.Core.List.{List, [], ◌∷◌, ◌++◌}
use mathlib.Core.Option.{Option, none, some}
use native.Mathlib.Omega.{arith}

module _ {ℓ} {A : Type ℓ} where
  abbrev pub length : List A → ℕ
  length [] = 0
  length (x ∷ xs) = suc (length xs)

  abbrev pub get_elem? : List A → ℕ → Option A
  get_elem? [] i = none
  get_elem? (x ∷ xs) zero = some x
  get_elem? (x ∷ xs) (suc i) = get_elem? xs i

  abbrev pub get_or : List A → ℕ → A → A
  get_or [] i d = d
  get_or (x ∷ xs) zero d = x
  get_or (x ∷ xs) (suc i) d = get_or xs i d

  abbrev pub set : List A → ℕ → A → List A
  set [] i v = []
  set (x ∷ xs) zero v = v ∷ xs
  set (x ∷ xs) (suc i) v = x ∷ set xs i v

  abbrev pub replicate : ℕ → A → List A
  replicate zero a = []
  replicate (suc n) a = a ∷ replicate n a

  -- `v.insert(v.begin() + i, a)`, which the code calls with `i` at most the size.
  abbrev pub insert_at : List A → ℕ → A → List A
  insert_at xs zero a = a ∷ xs
  insert_at [] (suc i) a = a ∷ []
  insert_at (x ∷ xs) (suc i) a = x ∷ insert_at xs i a

  -- `v.erase(v.begin() + i)`.
  abbrev pub erase_at : List A → ℕ → List A
  erase_at [] i = []
  erase_at (x ∷ xs) zero = xs
  erase_at (x ∷ xs) (suc i) = x ∷ erase_at xs i

  pub length-append : (xs ys : List A) → length (xs ++ ys) ≡ length xs + length ys
  length-append [] ys = omega arith
  length-append (x ∷ xs) ys = omega (arith, length-append xs ys)

  pub length-set : (xs : List A) (i : ℕ) (v : A) → length (set xs i v) ≡ length xs
  length-set [] i v = refl
  length-set (x ∷ xs) zero v = refl
  length-set (x ∷ xs) (suc i) v = ap suc (length-set xs i v)

  pub get_elem?-set_self :
      (xs : List A) (i : ℕ) (v : A) {a : A}
      → get_elem? xs i ≡ some a
      → get_elem? (set xs i v) i ≡ some v
  get_elem?-set_self [] i v e = cc
  get_elem?-set_self (x ∷ xs) zero v e = refl
  get_elem?-set_self (x ∷ xs) (suc i) v e = get_elem?-set_self xs i v e

  pub length-replicate : (n : ℕ) (a : A) → length (replicate n a) ≡ n
  length-replicate zero a = refl
  length-replicate (suc n) a = ap suc (length-replicate n a)

  pub length-insert_at : (xs : List A) (i : ℕ) (a : A) → length (insert_at xs i a) ≡ suc (length xs)
  length-insert_at xs zero a = refl
  length-insert_at [] (suc i) a = refl
  length-insert_at (x ∷ xs) (suc i) a = ap suc (length-insert_at xs i a)

  pub get_elem?-eq-get_or :
      (xs : List A) (i : ℕ) (d : A) → i < length xs → get_elem? xs i ≡ some (get_or xs i d)
  get_elem?-eq-get_or [] i d h = absurd (omega arith)
  get_elem?-eq-get_or (x ∷ xs) zero d h = refl
  get_elem?-eq-get_or (x ∷ xs) (suc i) d h = get_elem?-eq-get_or xs i d (omega arith)

  -- In range the default is never read.
  pub get_or_default :
      (xs : List A) (i : ℕ) (d d' : A) → i < length xs → get_or xs i d ≡ get_or xs i d'
  get_or_default [] i d d' h = absurd (omega arith)
  get_or_default (x ∷ xs) zero d d' h = refl
  get_or_default (x ∷ xs) (suc i) d d' h = get_or_default xs i d d' (omega arith)

  pub get_or-set_self :
      (xs : List A) (i : ℕ) (v d : A) → i < length xs → get_or (set xs i v) i d ≡ v
  get_or-set_self [] i v d h = absurd (omega arith)
  get_or-set_self (x ∷ xs) zero v d h = refl
  get_or-set_self (x ∷ xs) (suc i) v d h = get_or-set_self xs i v d (omega arith)

  pub get_or-set_ne :
      (xs : List A) {i j : ℕ} (v d : A) → i ≢ j → get_or (set xs i v) j d ≡ get_or xs j d
  get_or-set_ne [] v d h = refl
  get_or-set_ne (x ∷ xs) {i = zero} {j = zero} v d h = absurd (h refl)
  get_or-set_ne (x ∷ xs) {i = zero} {j = suc j} v d h = refl
  get_or-set_ne (x ∷ xs) {i = suc i} {j = zero} v d h = refl
  get_or-set_ne (x ∷ xs) {i = suc i} {j = suc j} v d h = get_or-set_ne xs v d (λ e. h (ap suc e))

  pub get_or-append :
      (xs ys : List A) (i : ℕ) (d : A) → i < length xs → get_or (xs ++ ys) i d ≡ get_or xs i d
  get_or-append [] ys i d h = absurd (omega arith)
  get_or-append (x ∷ xs) ys zero d h = refl
  get_or-append (x ∷ xs) ys (suc i) d h = get_or-append xs ys i d (omega arith)

  pub get_or-append_last : (xs : List A) (a d : A) → get_or (xs ++ (a ∷ [])) (length xs) d ≡ a
  get_or-append_last [] a d = refl
  get_or-append_last (x ∷ xs) a d = get_or-append_last xs a d

  -- Every element satisfies `P`.
  abbrev pub All {κ} : (A → Type κ) → List A → Type κ
  All P [] = Unit
  All P (x ∷ xs) = P x × All P xs

  pub All-append {κ} : (P : A → Type κ) (xs ys : List A) → All P xs → All P ys → All P (xs ++ ys)
  All-append P [] ys h k = k
  All-append P (x ∷ xs) ys h k = (h.0, All-append P xs ys h.1 k)

  pub All-split {κ} : (P : A → Type κ) (xs ys : List A) → All P (xs ++ ys) → All P xs × All P ys
  All-split P [] ys h = (tt, h)
  All-split P (x ∷ xs) ys h = let r = All-split P xs ys h.1 in ((h.0, r.0), r.1)

  pub All-imp {κ κ'} :
      (P : A → Type κ) (Q : A → Type κ') (xs : List A) → ((a : A) → P a → Q a) → All P xs → All Q xs
  All-imp P Q [] f h = tt
  All-imp P Q (x ∷ xs) f h = (f x h.0, All-imp P Q xs f h.1)

  pub All-insert_at {κ} :
      (P : A → Type κ) (xs : List A) (i : ℕ) (a : A) → P a → All P xs → All P (insert_at xs i a)
  All-insert_at P xs zero a p h = (p, h)
  All-insert_at P [] (suc i) a p h = (p, tt)
  All-insert_at P (x ∷ xs) (suc i) a p h = (h.0, All-insert_at P xs i a p h.1)

  pub All-erase_at {κ} : (P : A → Type κ) (xs : List A) (i : ℕ) → All P xs → All P (erase_at xs i)
  All-erase_at P [] i h = tt
  All-erase_at P (x ∷ xs) zero h = h.1
  All-erase_at P (x ∷ xs) (suc i) h = (h.0, All-erase_at P xs i h.1)

  pub All-get {κ} :
      (P : A → Type κ) (xs : List A) (i : ℕ) (a : A) → get_elem? xs i ≡ some a → All P xs → P a
  All-get P [] i a e h = cc
  All-get P (x ∷ xs) zero a e h = subst P (ground arith) h.0
  All-get P (x ∷ xs) (suc i) a e h = All-get P xs i a e h.1

  abbrev pub drop : ℕ → List A → List A
  drop zero xs = xs
  drop (suc n) [] = []
  drop (suc n) (x ∷ xs) = drop n xs

  pub get_elem?-insert_at :
      (xs : List A) (i : ℕ) (a : A) → i ≤ length xs → get_elem? (insert_at xs i a) i ≡ some a
  get_elem?-insert_at xs zero a h = refl
  get_elem?-insert_at [] (suc i) a h = absurd (omega arith)
  get_elem?-insert_at (x ∷ xs) (suc i) a h = get_elem?-insert_at xs i a (omega arith)

  pub erase_at-insert_at :
      (xs : List A) (i : ℕ) (a : A) → i ≤ length xs → erase_at (insert_at xs i a) i ≡ xs
  erase_at-insert_at xs zero a h = refl
  erase_at-insert_at [] (suc i) a h = absurd (omega arith)
  erase_at-insert_at (x ∷ xs) (suc i) a h = ap (◌∷◌ x) (erase_at-insert_at xs i a (omega arith))

  -- `v.pop_back()`.
  abbrev pub pop_back : List A → List A
  pop_back [] = []
  pop_back (x ∷ []) = []
  pop_back (x ∷ y ∷ ys) = x ∷ pop_back (y ∷ ys)

  pub pop_back-append : (xs : List A) (a : A) → pop_back (xs ++ (a ∷ [])) ≡ xs
  pop_back-append [] a = refl
  pop_back-append (x ∷ []) a = refl
  pop_back-append (x ∷ y ∷ ys) a = ap (◌∷◌ x) (pop_back-append (y ∷ ys) a)

  -- `v[i] = f(v[i])`.
  abbrev pub update_at : List A → ℕ → (A → A) → List A
  update_at [] i f = []
  update_at (x ∷ xs) zero f = f x ∷ xs
  update_at (x ∷ xs) (suc i) f = x ∷ update_at xs i f

  pub All-set {κ} :
      (P : A → Type κ) (xs : List A) (i : ℕ) (a : A) → P a → All P xs → All P (set xs i a)
  All-set P [] i a p h = tt
  All-set P (x ∷ xs) zero a p h = (p, h.1)
  All-set P (x ∷ xs) (suc i) a p h = (h.0, All-set P xs i a p h.1)
