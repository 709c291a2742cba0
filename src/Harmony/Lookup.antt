-- ===== src/Harmony/Lookup.antt =====
-- The searches of apps/harmony_timeline.cpp against searches of the whole sequence.
use unidaw.Base.{
  ℕ, suc, ◌-◌, ◌≤◌, ◌<◌, ◌≡◌, refl, inl, inr, true, false, List, [], ◌∷◌, Option, none, some, ◌==◌,
  if◌then◌else◌, leb, ltb, lower_bound, get_elem?, find_if, IsSorted, All, All-imp, Bool-cases,
  Option-cases, arith, ◌∙◌, sym,
}
use unidaw.Harmony.{HarmonyEvent, tick_of, find_harmony_index, upper_bound, harmony_at}

-- The last of the events that is not after the tick, or what was the last before them.
pub last_until : ℕ → Option HarmonyEvent → List HarmonyEvent → Option HarmonyEvent
last_until nanotick best [] = best
last_until nanotick best (e ∷ es) =
    last_until nanotick (if leb e.nanotick nanotick then some e else best) es

absent_above :
    (t : ℕ) (es : List HarmonyEvent)
    → All (λ e. suc t ≤ e.nanotick) es
    → find_if (λ e. e.nanotick == t) es ≡ none
absent_above t [] h = refl
absent_above t (e ∷ es) h = ground (arith, absent_above t es h.1)

last_until_above :
    (t : ℕ) (best : Option HarmonyEvent) (es : List HarmonyEvent)
    → All (λ e. suc t ≤ e.nanotick) es
    → last_until t best es ≡ best
unfolding last_until
last_until_above t best [] h = refl
last_until_above t best (e ∷ es) h =
    rw (leb_above e.nanotick t h.0) (last_until_above t best es h.1)
  where
    leb_above : (a b : ℕ) → suc b ≤ a → leb a b ≡ false
    leb_above a b h = ground arith

later_above :
    (t : ℕ) (e : HarmonyEvent) (es : List HarmonyEvent)
    → t < e.nanotick
    → IsSorted tick_of (e ∷ es)
    → All (λ x. suc t ≤ x.nanotick) es
later_above t e es above h =
    All-imp (λ x. e.nanotick ≤ x.nanotick) (λ x. suc t ≤ x.nanotick) es (λ x q. omega arith) h.0

-- On events in the order of their ticks, findHarmonyIndex returns the index of the first event at
-- the tick, and none when no event is at the tick.
find_harmony_index_lem :
    (es : List HarmonyEvent) (t : ℕ)
    → IsSorted tick_of es
    → find_harmony_index es t ≡ find_if (λ e. e.nanotick == t) es
unfolding find_harmony_index
find_harmony_index_lem [] t h = refl
find_harmony_index_lem (e ∷ es) t h = elim (Bool-cases (ltb e.nanotick t)) [
  | inl below ↦
      let rest = find_harmony_index_lem es t h.1 in
      elim (Option-cases (get_elem? es (lower_bound tick_of es t))) [
        | inl z ↦ ground (arith, rest)
        | inr (x, f) ↦ ground (arith, rest)
      ]
  | inr there ↦ elim (Bool-cases (e.nanotick == t)) [
    | inl same ↦ ground arith
    | inr above ↦ ground (arith, absent_above t es (later_above t e es (ground arith) h))
  ]
]

-- What `harmonyAt` returns from a position that is found.
at_bound :
    (t : ℕ) (e : HarmonyEvent) (es : List HarmonyEvent)
    → leb e.nanotick t ≡ true
    → IsSorted tick_of (e ∷ es)
    → get_elem? (e ∷ es) (upper_bound es t) ≡ last_until t (some e) es
unfolding last_until
at_bound t e [] le h = refl
at_bound t e (x ∷ es) le h = elim (Bool-cases (leb x.nanotick t)) [
  | inl more ↦ rw more (at_bound t x es more h.1)
  | inr stop ↦
      rw stop (sym (last_until_above t (some e) es (later_above t x es (ground arith) h.1)))
]

past :
    (n : ℕ) (xs : List HarmonyEvent)
    → (if suc n == 0 then none else get_elem? xs (suc n - 1)) ≡ get_elem? xs n
past n xs = rw (not_zero, back) refl
  where
    not_zero : (suc n == 0) ≡ false
    not_zero = ground arith

    back : suc n - 1 ≡ n
    back = omega arith

-- On events in the order of their ticks, harmonyAt returns the last event that is not after the
-- tick, and none when all are after it.
pub harmony_at_lem :
    (es : List HarmonyEvent) (t : ℕ) → IsSorted tick_of es → harmony_at es t ≡ last_until t none es
unfolding harmony_at last_until
harmony_at_lem [] t h = refl
harmony_at_lem (e ∷ es) t h = elim (Bool-cases (leb e.nanotick t)) [
  | inl le ↦ rw le (past (upper_bound es t) (e ∷ es) ∙ at_bound t e es le h)
  | inr above ↦ rw above (sym (last_until_above t none es (later_above t e es (ground arith) h)))
]
