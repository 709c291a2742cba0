-- ===== src/Engine/Windows.antt =====
-- The window of one block in a loop (apps/daw_engine_main.cpp): which events it gathers.
use native.Mathlib.Nat.{mod-eq_of_lt, zero-add}
use unidaw.Base.{
  ℕ, ◌+◌, ◌-◌, ◌%◌, ◌<◌, ◌≤◌, ◌≡◌, sym, ap, ap₂, ◌∙◌, true, false, List, ◌++◌, map, arith, IsSorted,
  leb, ◌==◌, ◌||◌, Bool-cases, inl, inr,
}
use unidaw.Base.Window.{mod_cases}
use unidaw.Base.Ranges.{select, range-eq-select}
use unidaw.Event.{MusicalEvent, tick}
use unidaw.Engine.{ClipSnapshot}
use unidaw.Engine.Playback.{
  wrap_tick, next_ticks, get_clip_events_in_range, gather_range, gather_window,
}
use unidaw.Engine.Gather.{spread, spread-add, spread-ext, timed, select-eq-spread}

-- The events at a tick.
abbrev pub events_at : ClipSnapshot → ℕ → List MusicalEvent
events_at snapshot t = select tick t (t + 1) snapshot.events

-- The tick that is `i` ticks after `t`, going round in the loop.
abbrev pub round_tick : ℕ × ℕ → ℕ → ℕ → ℕ
round_tick (start, end) t i = start + (t - start + i) % (end - start)

module _ (lo hi : ℕ) (lt : lo < hi) where
  pub wrap_tick_in : (t : ℕ) → (lo ≤ wrap_tick (lo, hi) t) × (wrap_tick (lo, hi) t < hi)
  unfolding wrap_tick
  wrap_tick_in t = ground arith

  pub wrap_tick_id : (t : ℕ) → lo ≤ t → t < hi → wrap_tick (lo, hi) t ≡ t
  unfolding wrap_tick
  wrap_tick_id t a b = ground arith

  pub next_ticks-eq :
      (t b : ℕ) → lo ≤ t → t < hi → next_ticks (lo, hi) (t + b) ≡ round_tick (lo, hi) t b
  unfolding next_ticks
  next_ticks-eq t b l u = ground (arith, ap (λ k. k % (hi - lo)) same, short)
    where
      same : t + b - lo ≡ t - lo + b
      same = omega arith

      short : t - lo + b < hi - lo → (t - lo + b) % (hi - lo) ≡ t - lo + b
      short h = mod-eq_of_lt h

  pub next_ticks_in : (t : ℕ) → lo ≤ t → (lo ≤ next_ticks (lo, hi) t) × (next_ticks (lo, hi) t < hi)
  unfolding next_ticks
  next_ticks_in t l = ground arith

  -- Before the end of the loop a tick is reached straight, and after it once round.
  before_end : (t i : ℕ) → lo ≤ t → t + i < hi → t + i ≡ round_tick (lo, hi) t i
  before_end t i l u = omega (arith, mod_cases (t - lo + i) (hi - lo) (omega arith))

  after_end : (t i : ℕ) → lo ≤ t → t < hi → i < t - lo → lo + i ≡ round_tick (lo, hi) t (hi - t + i)
  after_end t i l u h = omega (arith, mod_cases (t - lo + (hi - t + i)) (hi - lo) (omega arith))

  gather_range_lem :
      (s : ClipSnapshot) (from n base : ℕ)
      → IsSorted tick s.events
      → gather_range s from (from + n) base
        ≡ spread (λ j. timed (base + j) (events_at s (from + j))) n
  unfolding get_clip_events_in_range
  gather_range_lem s from n base sorted =
      ap (map (λ x. (base + (tick x - from), x)))
        (range-eq-select tick from (from + n) s.events sorted)
      ∙ select-eq-spread tick base from n s.events sorted

  pub gather_window_lem :
      (s : ClipSnapshot) (t b : ℕ)
      → IsSorted tick s.events
      → lo ≤ t
      → t < hi
      → b ≤ hi - lo
      → gather_window s (lo, hi) t (t + b)
        ≡ spread (λ i. timed i (events_at s (round_tick (lo, hi) t i))) b
  unfolding gather_window
  gather_window_lem s t b sorted l u le = elim (Bool-cases (leb (t + b) hi)) [
    | inl short ↦ rw (one_call short) (gather_range_lem s t b 0 sorted ∙ straight b (ground arith))
    | inr long ↦ rw (two_calls long) (
        ap₂ (λ xs ys. xs ++ ys)
          (ap (λ e. gather_range s t e 0) (whole t u)
            ∙ gather_range_lem s t (hi - t) 0 sorted
            ∙ straight (hi - t) (omega arith))
          (gather_range_lem s lo (t + b - hi) (hi - t) sorted ∙ round (t + b - hi) (omega arith))
        ∙ sym (spread-add f (hi - t) (t + b - hi))
        ∙ ap (spread f) (parts (ground arith)))
  ]
    where
      f : ℕ → List (ℕ × MusicalEvent)
      f i = timed i (events_at s (round_tick (lo, hi) t i))

      one_call : leb (t + b) hi ≡ true → ((hi - lo == 0) || leb (t + b) hi) ≡ true
      one_call h = ground arith

      two_calls : leb (t + b) hi ≡ false → ((hi - lo == 0) || leb (t + b) hi) ≡ false
      two_calls h = ground arith

      whole : (t : ℕ) → t < hi → hi ≡ t + (hi - t)
      whole t u = omega arith

      parts : hi < t + b → hi - t + (t + b - hi) ≡ b
      parts h = omega arith

      straight :
          (n : ℕ) → t + n ≤ hi → spread (λ j. timed (0 + j) (events_at s (t + j))) n ≡ spread f n
      straight n h =
          spread-ext (λ j. timed (0 + j) (events_at s (t + j))) f n
            (λ i hi'.
              ap₂ (λ k at. timed k (events_at s at)) (zero-add i) (before_end t i l (omega arith)))

      round :
          (n : ℕ)
          → n ≤ t - lo
          → spread (λ j. timed (hi - t + j) (events_at s (lo + j))) n
            ≡ spread (λ j. f (hi - t + j)) n
      round n h =
          spread-ext (λ j. timed (hi - t + j) (events_at s (lo + j))) (λ j. f (hi - t + j)) n
            (λ i hi'.
              ap (λ at. timed (hi - t + i) (events_at s at)) (after_end t i l u (omega arith)))
