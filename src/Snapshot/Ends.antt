-- ===== src/Snapshot/Ends.antt =====
-- Where a page starts and where a window ends, in the sequence of the events.
use unidaw.Base.{
  ℕ, zero, suc, ◌+◌, ◌≤◌, ◌<◌, ◌≡◌, refl, sym, ap, ◌∙◌, min, true, false, List, [], ◌∷◌, none, some,
  inl, inr, ltb, leb, ◌==◌, ◌||◌, length, get_elem?, lower_bound, drop, IsSorted, All-get, arith,
  Bool-cases, Option-cases,
}
use unidaw.Event.{MusicalEvent, tick}
use unidaw.Snapshot.{ClipWindowRequest, starts_before, ends_at, start_index}
use unidaw.Snapshot.Pages.{window}

module _ {A : Type 0} where
  drop_empty : (j : ℕ) → drop {A = A} j [] ≡ []
  drop_empty zero = refl
  drop_empty (suc j) = refl

  pub drop-drop : (i j : ℕ) (xs : List A) → drop j (drop i xs) ≡ drop (i + j) xs
  drop-drop zero j xs = let e : j ≡ zero + j = omega arith in ap (λ n. drop n xs) e
  drop-drop (suc i) j [] = drop_empty j ∙ sym (drop_empty (suc i + j))
  drop-drop (suc i) j (x ∷ xs) =
      let e : suc (i + j) ≡ suc i + j = omega arith in
      drop-drop i j xs ∙ ap (λ n. drop n (x ∷ xs)) e

  pub drop_cons :
      (j : ℕ) (xs : List A) {a : A} → get_elem? xs j ≡ some a → drop j xs ≡ a ∷ drop (suc j) xs
  drop_cons j [] h = cc
  drop_cons zero (x ∷ xs) h = cc
  drop_cons (suc j) (x ∷ xs) h = drop_cons j xs h

  drop_end : (j : ℕ) (xs : List A) → get_elem? xs j ≡ none → drop j xs ≡ []
  drop_end zero [] h = refl
  drop_end (suc j) [] h = refl
  drop_end zero (x ∷ xs) h = cc
  drop_end (suc j) (x ∷ xs) h = drop_end j xs h

  pub in_range : (j : ℕ) (xs : List A) {a : A} → get_elem? xs j ≡ some a → j < length xs
  in_range j [] h = cc
  in_range zero (x ∷ xs) h = omega arith
  in_range (suc j) (x ∷ xs) h = omega (arith, in_range j xs h)

  pub length-drop : (i : ℕ) (xs : List A) → i ≤ length xs → i + length (drop i xs) ≡ length xs
  length-drop zero xs h = omega arith
  length-drop (suc i) [] h = absurd (omega arith)
  length-drop (suc i) (x ∷ xs) h = omega (arith, length-drop i xs (omega arith))

-- From the lower bound of a tick on no event is before it.
pub from_bound :
    (ws j : ℕ) (es : List MusicalEvent)
    → IsSorted tick es
    → lower_bound tick es ws ≤ j
    → starts_before ws (get_elem? es j) ≡ false
from_bound ws j [] s h = refl
from_bound ws zero (e ∷ es) s h = ground arith
from_bound ws (suc j) (e ∷ es) s h = elim (Bool-cases (ltb (tick e) ws)) [
  | inl lt ↦ from_bound ws j es s.1 (ground arith)
  | inr ge ↦ elim (Option-cases (get_elem? es j)) [
    | inl z ↦ rw z refl
    | inr (x, z) ↦
        rw z (not_before (tick e) (tick x) ws ge (All-get (λ y. tick e ≤ tick y) es j x z s.0))
  ]
]
  where
    not_before : (a b c : ℕ) → ltb a c ≡ false → a ≤ b → ltb b c ≡ false
    not_before a b c h le = ground arith

-- An event that ends the window, or the end of the clip.
pub window_over :
    (limit j : ℕ) (es : List MusicalEvent)
    → ends_at limit (get_elem? es j) ≡ true
    → window limit (drop j es) ≡ []
window_over limit j es h = elim (Option-cases (get_elem? es j)) [
  | inl z ↦ rw (drop_end j es z) refl
  | inr (e, z) ↦
      rw (drop_cons j es z) (rw (above (tick e) limit (sym (ap (ends_at limit) z) ∙ h)) refl)
]
  where
    above : (t limit : ℕ) → leb limit t ≡ true → ltb t limit ≡ false
    above t limit h = ground arith

-- A cursor inside the window is where the loop starts.
pub start_at :
    (es : List MusicalEvent) (request : ClipWindowRequest) (i : ℕ)
    → request.cursor_event_index ≡ i
    → 1 ≤ i
    → i < length es
    → starts_before request.window_start_nanotick (get_elem? es i) ≡ false
    → start_index es request ≡ i
unfolding start_index
start_at es request i c one lt before =
    rw (lowest, start_index) (rw (nonzero i one, before, start_index) refl)
  where
    lowest : min request.cursor_event_index (length es) ≡ i
    lowest = omega (arith, c)

    nonzero : (n : ℕ) → 1 ≤ n → (n == 0) ≡ false
    nonzero n h = ground arith

pub lower_bound-le : (es : List MusicalEvent) (t : ℕ) → lower_bound tick es t ≤ length es
lower_bound-le [] t = omega arith
lower_bound-le (e ∷ es) t = ground (arith, lower_bound-le es t)

pub start_index-le :
    (es : List MusicalEvent) (request : ClipWindowRequest) → start_index es request ≤ length es
unfolding start_index
start_index-le es request =
    elim (Bool-cases (i == 0 || starts_before request.window_start_nanotick (get_elem? es i))) [
      | inl y ↦ rw (y, start_index) (lower_bound-le es request.window_start_nanotick)
      | inr n ↦ rw (n, start_index) (omega arith)
    ]
  where
    i : ℕ
    i = min request.cursor_event_index (length es)

pub start_zero :
    (es : List MusicalEvent) (request : ClipWindowRequest)
    → request.cursor_event_index ≡ 0
    → start_index es request ≡ lower_bound tick es request.window_start_nanotick
unfolding start_index
start_zero es request c = rw (lowest, start_index) refl
  where
    lowest : min request.cursor_event_index (length es) ≡ 0
    lowest = omega (arith, c)
