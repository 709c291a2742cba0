-- ===== src/Clip/Rows.antt =====
-- `PatternView` of apps/musical_structures.h: the rows of a pattern, a beat cut into lines.
use unidaw.Base.{
  ℕ, zero, suc, ◌*◌, ◌/◌, ◌%◌, ◌^◌, ◌≤◌, ◌<◌, ◌≡◌, refl, sym, ap, ap₂, ◌∙◌, inl, inr, List, [], ◌∷◌,
  ◌++◌, Bool-cases, ltb, IsSorted, All, All-imp, arith,
}
use native.Mathlib.Nat.{mul-le-mul, mul-le-mul_right, div-le_self}
use unidaw.Base.Words.{add64}
use unidaw.Base.Ranges.{select, select_above}
use unidaw.Event.{MusicalEvent, tick}
use unidaw.Clip.Range.{get_events_in_range_lem}
use unidaw.Clip.{MusicalClip, get_events_in_range}

-- `clip_` is the clip that it refers to.
pub record PatternView : Type 0 where
  pub clip : MusicalClip
  pub lines_per_beat : ℕ
  pub row_nanoticks : ℕ

-- NanotickConverter::kNanoticksPerQuarter.
abbrev pub nanoticks_per_quarter : ℕ
nanoticks_per_quarter = 960000

abbrev pub new_pattern_view : MusicalClip → ℕ → PatternView
new_pattern_view clip lines = record {
  clip = clip;
  lines_per_beat = lines;
  row_nanoticks = nanoticks_per_quarter / lines;
}

abbrev pub row_start_nanotick : PatternView → ℕ → ℕ
row_start_nanotick v row = (row * v.row_nanoticks) % 2 ^ 64

abbrev pub row_end_nanotick : PatternView → ℕ → ℕ
row_end_nanotick v row = add64 (row_start_nanotick v row) v.row_nanoticks

abbrev pub row_range : PatternView → ℕ → ℕ × ℕ
row_range v row = (row_start_nanotick v row, row_end_nanotick v row)

-- The events of the rows before `n`, row by row.
pub row_events : PatternView → ℕ → List MusicalEvent
row_events v zero = []
row_events v (suc n) =
    row_events v n ++ get_events_in_range v.clip (row_range v n).0 (row_range v n).1

-- Two ranges that meet.
select-append :
    (a b c : ℕ) (xs : List MusicalEvent)
    → a ≤ b
    → b ≤ c
    → IsSorted tick xs
    → select tick a b xs ++ select tick b c xs ≡ select tick a c xs
select-append a b c [] ab bc s = refl
select-append a b c (x ∷ xs) ab bc s = elim (Bool-cases (ltb (tick x) b)) [
  | inl below ↦ ground (arith, select-append a b c xs ab bc s.1)
  | inr from ↦
      ground
        (arith, select-append a b c xs ab bc s.1, select_above tick a b xs (above (ground arith)))
]
  where
    above : b ≤ tick x → All (λ y. b ≤ tick y) xs
    above le = All-imp (λ y. tick x ≤ tick y) (λ y. b ≤ tick y) xs (λ y q. omega arith) s.0

-- No tick of the first 2^32 rows wraps.
row_ticks :
    (v : PatternView) (n : ℕ)
    → v.row_nanoticks ≤ nanoticks_per_quarter
    → n < 2 ^ 32
    → row_range v n ≡ (n * v.row_nanoticks, suc n * v.row_nanoticks)
row_ticks v n short few =
    let product = mul-le-mul few short in
    ap₂ (λ a b. (a, b)) (start product)
      (ap (λ a. add64 a v.row_nanoticks) (start product) ∙ end product)
  where
    start : suc n * v.row_nanoticks ≤ 2 ^ 32 * 960000 → row_start_nanotick v n ≡ n * v.row_nanoticks
    start h = grind (arith, h)

    end :
        suc n * v.row_nanoticks ≤ 2 ^ 32 * 960000
        → add64 (n * v.row_nanoticks) v.row_nanoticks ≡ suc n * v.row_nanoticks
    end h = grind (arith, h)

no_rows : (xs : List MusicalEvent) → select tick 0 0 xs ≡ []
no_rows [] = refl
no_rows (x ∷ xs) = ground (arith, no_rows xs)

rows_so_far :
    (v : PatternView) (n : ℕ)
    → v.row_nanoticks ≤ nanoticks_per_quarter
    → n ≤ 2 ^ 32
    → IsSorted tick (v.clip).events
    → row_events v n ≡ select tick 0 (n * v.row_nanoticks) (v.clip).events
unfolding row_events
rows_so_far v zero short few s =
    sym (ap (λ m. select tick 0 m (v.clip).events) (omega arith) ∙ no_rows (v.clip).events)
rows_so_far v (suc n) short few s =
    ap₂ (λ xs ys. xs ++ ys) (rows_so_far v n short (omega arith) s)
      (ap (λ r. get_events_in_range v.clip r.0 r.1) (row_ticks v n short (omega arith))
        ∙ get_events_in_range_lem v.clip (n * v.row_nanoticks) (suc n * v.row_nanoticks) s)
    ∙ select-append 0 (n * v.row_nanoticks) (suc n * v.row_nanoticks) (v.clip).events (omega arith)
        (mul-le-mul_right v.row_nanoticks (omega arith)) s

-- On a clip in tick order with at least one line to the beat, the events that getEventsInRange gives
-- for the ranges of the first `n` rows, up to 2^32 rows, one row after the other, are the events of
-- the clip that are before the end of the last row, in order: no event is left out between two rows,
-- and none is in two.
pub row_events_lem :
    (c : MusicalClip) (lines n : ℕ)
    → 0 < lines
    → n ≤ 2 ^ 32
    → IsSorted tick c.events
    → row_events (new_pattern_view c lines) n
      ≡ select tick 0 (n * (nanoticks_per_quarter / lines)) c.events
row_events_lem c lines n positive few s =
    rows_so_far (new_pattern_view c lines) n (div-le_self nanoticks_per_quarter lines) few s
