-- ===== src/Engine/Looped.antt =====
-- Playing block after block (apps/daw_engine_main.cpp): the loop's ticks are passed one by one, round
-- and round, and each event is gathered whenever its tick is passed.
use native.Mathlib.Nat.{mod-add-mod, mod-eq_of_lt, zero-add, add_assoc}
use mathlib.Core.List.{map-append}
use unidaw.Base.{
  ℕ, zero, suc, ◌+◌, ◌-◌, ◌^◌, ◌%◌, ◌<◌, ◌≤◌, ◌≡◌, refl, sym, ap, ap₂, subst, ◌∙◌, List, [], ◌∷◌,
  ◌++◌, map, arith, IsSorted,
}
use unidaw.Base.Words.{add64}
use unidaw.Event.{MusicalEvent, tick}
use unidaw.Engine.{Engine, ClipSnapshot}
use unidaw.Engine.Playback.{
  loop_range, wrap_tick, next_ticks, gather_window, block_start, gather_block, finish_block,
}
use unidaw.Engine.Gather.{spread, spread-add, spread-ext, timed}
use unidaw.Engine.Windows.{
  events_at, round_tick, wrap_tick_in, wrap_tick_id, next_ticks-eq, gather_window_lem,
}

-- With the ticks before the block added.
abbrev later : ℕ → List (ℕ × MusicalEvent) → List (ℕ × MusicalEvent)
later k = map (λ p. (k + p.0, p.1))

-- What `n` playing blocks gather for a track whose clip stays the same, each event with its ticks from
-- the start of the first of them, which is `k` ticks late.
unfoldable pub play_blocks : (ℕ → ℕ) → ClipSnapshot → ℕ → Engine → ℕ → List (ℕ × MusicalEvent)
play_blocks f s zero e k = []
play_blocks f s (suc n) e k =
    later k (gather_block f s e) ++ play_blocks f s n (finish_block f e) (k + f (block_start e))

-- The ticks of `n` playing blocks.
unfoldable pub played_ticks : (ℕ → ℕ) → ℕ → Engine → ℕ
played_ticks f zero e = 0
played_ticks f (suc n) e = f (block_start e) + played_ticks f n (finish_block f e)

later-spread :
    (k : ℕ) (g : ℕ → List (ℕ × MusicalEvent)) (n : ℕ)
    → later k (spread g n) ≡ spread (λ i. later k (g i)) n
later-spread k g zero = refl
later-spread k g (suc n) =
    map-append (λ p. (k + p.0, p.1)) (spread g n) (g n)
    ∙ ap (λ xs. xs ++ later k (g n)) (later-spread k g n)

later-timed : (k i : ℕ) (xs : List MusicalEvent) → later k (timed i xs) ≡ timed (k + i) xs
later-timed k i [] = refl
later-timed k i (x ∷ xs) = ap (λ ys. (k + i, x) ∷ ys) (later-timed k i xs)

loop_range-finish_block : (f : ℕ → ℕ) (e : Engine) → loop_range (finish_block f e) ≡ loop_range e
unfolding loop_range finish_block
loop_range-finish_block f e = refl

pub loop_range-IsLoop : (e : Engine) → (loop_range e).0 < (loop_range e).1
unfolding loop_range
loop_range-IsLoop e = ground arith

module _ (lo hi : ℕ) (lt : lo < hi) (small : hi ≤ 2 ^ 63) (f : ℕ → ℕ) (s : ClipSnapshot) where
  round_tick-round_tick :
      (t b i : ℕ) → round_tick (lo, hi) (round_tick (lo, hi) t b) i ≡ round_tick (lo, hi) t (b + i)
  round_tick-round_tick t b i =
      ap (λ x. lo + x % (hi - lo)) straight
      ∙ ap (λ x. lo + x) (mod-add-mod (t - lo + b) (hi - lo) i)
      ∙ ap (λ x. lo + x % (hi - lo)) (add_assoc (t - lo) b i)
    where
      straight : round_tick (lo, hi) t b - lo + i ≡ (t - lo + b) % (hi - lo) + i
      straight = omega arith

  round_tick_in : (t b : ℕ) → (lo ≤ round_tick (lo, hi) t b) × (round_tick (lo, hi) t b < hi)
  round_tick_in t b = (omega arith, omega arith)

  module _ (fits : (t : ℕ) → f t ≤ hi - lo) (sorted : IsSorted tick s.events) where
    block_in : (e : Engine) → loop_range e ≡ (lo, hi) → (lo ≤ block_start e) × (block_start e < hi)
    block_in e p =
        subst
          (λ l. (lo ≤ wrap_tick l e.transport_nanotick) × (wrap_tick l e.transport_nanotick < hi))
          (sym p) (wrap_tick_in lo hi lt e.transport_nanotick)

    sum : (t : ℕ) → t < hi → add64 t (f t) ≡ t + f t
    sum t u = mod-eq_of_lt (omega (arith, fits t))

    block_start-finish_block :
        (e : Engine)
        → loop_range e ≡ (lo, hi)
        → block_start (finish_block f e) ≡ round_tick (lo, hi) (block_start e) (f (block_start e))
    unfolding finish_block
    block_start-finish_block e p =
        ap₂ wrap_tick (loop_range-finish_block f e ∙ p) (
          ap₂ next_ticks p (sum t (block_in e p).1)
          ∙ next_ticks-eq lo hi lt t (f t) (block_in e p).0 (block_in e p).1)
        ∙ wrap_tick_id lo hi lt (round_tick (lo, hi) t (f t)) (round_tick_in t (f t)).0
            (round_tick_in t (f t)).1
      where
        t : ℕ
        t = block_start e

    gather_block_lem :
        (e : Engine)
        → loop_range e ≡ (lo, hi)
        → gather_block f s e
          ≡ spread
              (λ i. timed i (events_at s (round_tick (lo, hi) (block_start e) i)))
              (f (block_start e))
    unfolding gather_block
    gather_block_lem e p =
        ap₂ (λ l w. gather_window s l (block_start e) w) p (sum (block_start e) (block_in e p).1)
        ∙ gather_window_lem lo hi lt s (block_start e) (f (block_start e)) sorted (block_in e p).0
            (block_in e p).1 (fits (block_start e))

    play_blocks-from :
        (n k : ℕ) (e : Engine)
        → loop_range e ≡ (lo, hi)
        → play_blocks f s n e k
          ≡ spread
              (λ i. timed (k + i) (events_at s (round_tick (lo, hi) (block_start e) i)))
              (played_ticks f n e)
    unfolding play_blocks played_ticks
    play_blocks-from zero k e p = refl
    play_blocks-from (suc n) k e p =
        ap₂ (λ xs ys. xs ++ ys)
          (ap (later k) (gather_block_lem e p)
            ∙ later-spread k g b
            ∙ spread-ext (λ i. later k (g i)) whole b
                (λ i h. later-timed k i (events_at s (round_tick (lo, hi) t i))))
          (play_blocks-from n (k + b) (finish_block f e) (loop_range-finish_block f e ∙ p)
            ∙ spread-ext
                (λ i.
                  timed (k + b + i)
                    (events_at s (round_tick (lo, hi) (block_start (finish_block f e)) i)))
                (λ i. whole (b + i)) rest
                (λ i h.
                  ap₂ (λ m at. timed m (events_at s at)) (add_assoc k b i)
                    (ap (λ u. round_tick (lo, hi) u i) (block_start-finish_block e p)
                      ∙ round_tick-round_tick t b i)))
        ∙ sym (spread-add whole b rest)
      where
        t : ℕ
        t = block_start e

        b : ℕ
        b = f t

        rest : ℕ
        rest = played_ticks f n (finish_block f e)

        g : ℕ → List (ℕ × MusicalEvent)
        g i = timed i (events_at s (round_tick (lo, hi) t i))

        whole : ℕ → List (ℕ × MusicalEvent)
        whole i = timed (k + i) (events_at s (round_tick (lo, hi) t i))

-- While the track's clip and the loop stay as they are, the clip is in tick order and no block is
-- longer than the loop, which ends at 2^63 at most: what `n` playing blocks gather is, tick after tick
-- of their time, the events at the tick of the loop that is so many ticks after the first block's
-- start, going round. Each event is gathered whenever its tick is passed, at its time, and not else.
pub play_blocks_lem :
    (f : ℕ → ℕ) (s : ClipSnapshot) (n : ℕ) (e : Engine)
    → IsSorted tick s.events
    → (loop_range e).1 ≤ 2 ^ 63
    → ((t : ℕ) → f t ≤ (loop_range e).1 - (loop_range e).0)
    → play_blocks f s n e 0
      ≡ spread
          (λ i. timed i (events_at s (round_tick (loop_range e) (block_start e) i)))
          (played_ticks f n e)
play_blocks_lem f s n e sorted small fits =
    play_blocks-from (loop_range e).0 (loop_range e).1 (loop_range-IsLoop e) small f s fits sorted n
      0 e refl
    ∙ spread-ext (λ i. timed (0 + i) (events_at s (round_tick (loop_range e) (block_start e) i)))
        (λ i. timed i (events_at s (round_tick (loop_range e) (block_start e) i)))
        (played_ticks f n e)
        (λ i h.
          ap (λ m. timed m (events_at s (round_tick (loop_range e) (block_start e) i)))
            (zero-add i))
