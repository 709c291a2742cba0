-- ===== src/Watchdog/Streak.antt =====
-- When the checks of apps/watchdog.h restart the host.
use unidaw.Base.{
  ℕ, suc, ◌+◌, ◌%◌, ◌≤◌, ◌<◌, ◌≡◌, ◌⊎◌, refl, inl, inr, Bool, true, false, List, [], ◌∷◌, ◌==◌, ltb,
  leb, if◌then◌else◌, arith, ap, ap₂, sym, Bool-cases,
}
use unidaw.Base.Window.{mod_cases}
use native.Mathlib.Nat.{mod-add-mod, mod-lt, mod-eq_of_lt}
use unidaw.Base.Words.{u32_max, add32}
use unidaw.Watchdog.{FaultType, Watchdog, check, count_late}

-- A check reads a completed block id and expects a block id.
pub record Poll : Type 0 where
  pub completed : ℕ
  pub expected : ℕ

pub record IsArmed (w : Watchdog) : Type 0 where
  pub mailbox : w.has_mailbox ≡ true
  pub callback : w.has_on_restart ≡ true
  pub positive : 0 < w.hard_timeout_blocks
  pub word : w.hard_timeout_blocks ≤ u32_max
  pub calm : w.fault ≡ FaultType.no_fault

-- Which of the checks restart the host.
unfoldable pub restarts : Watchdog → List Poll → List Bool
restarts w [] = []
restarts w (p ∷ ps) =
    (check w p.completed p.expected).restarted
    ∷ restarts (check w p.completed p.expected).watchdog ps

-- The same from the late blocks in a row alone, `streak` of them before: every `limit`-th one.
pub every_nth_late : (limit streak : ℕ) → List Poll → List Bool
every_nth_late limit streak [] = []
every_nth_late limit streak (p ∷ ps) =
    if ltb p.completed p.expected
    then (suc streak % limit == 0) ∷ every_nth_late limit (suc streak) ps
    else false ∷ every_nth_late limit 0 ps

one_more : (s h : ℕ) → suc s % h ≡ (s + 1) % h
one_more s h = ap (λ n. n % h) (omega arith)

-- The count after one more late block.
suc-mod :
    (s h : ℕ)
    → 0 < h
    → ((suc (s % h) < h) × (suc s % h ≡ suc (s % h))) ⊎ ((suc (s % h) ≡ h) × (suc s % h ≡ 0))
suc-mod s h pos = elim (mod_cases (s % h + 1) h (omega (arith, mod-lt s pos))) [
  | inl (short, e) ↦ inl (omega arith, omega (arith, e, mod-add-mod s h 1, one_more s h))
  | inr (long, e) ↦
      inr (
        omega (arith, mod-lt s pos),
        omega (arith, e, mod-add-mod s h 1, one_more s h, mod-lt s pos),
      )
]

no_wrap : (n : ℕ) → suc n ≤ u32_max → add32 n 1 ≡ suc n
no_wrap n h = omega arith

leb_above : (a b : ℕ) → b < a → leb a b ≡ false
leb_above a b h = ground arith

leb_eq : (a b : ℕ) → b ≡ a → leb a b ≡ true
leb_eq a b h = ground arith

IsArmed-at : (w : Watchdog) (n : ℕ) → IsArmed w → IsArmed (record w { consecutive_late_blocks = n })
IsArmed-at w n armed = record {
  mailbox = armed.mailbox;
  callback = armed.callback;
  positive = armed.positive;
  word = armed.word;
  calm = armed.calm;
}

-- The three outcomes of a check by an armed watchdog.
check_on_time :
    (w : Watchdog) (c e : ℕ)
    → IsArmed w
    → ltb c e ≡ false
    → check w c e ≡ record {
      ready = true;
      restarted = false;
      watchdog = record w { consecutive_late_blocks = 0 };
    }
unfolding check
check_on_time w c e armed timely = rw (armed.mailbox, armed.calm, timely) refl

check_late :
    (w : Watchdog) (c e : ℕ)
    → IsArmed w
    → ltb c e ≡ true
    → suc w.consecutive_late_blocks < w.hard_timeout_blocks
    → check w c e ≡ record {
      ready = false;
      restarted = false;
      watchdog = record w { consecutive_late_blocks = suc w.consecutive_late_blocks };
    }
unfolding check
check_late w c e armed late short =
    rw
      (
        armed.mailbox,
        armed.calm,
        late,
        count_late,
        no_wrap w.consecutive_late_blocks (omega (arith, armed.word)),
        leb_above w.hard_timeout_blocks (suc w.consecutive_late_blocks) short,
      )
      refl

check_restarts :
    (w : Watchdog) (c e : ℕ)
    → IsArmed w
    → ltb c e ≡ true
    → suc w.consecutive_late_blocks ≡ w.hard_timeout_blocks
    → check w c e ≡ record {
      ready = false;
      restarted = true;
      watchdog = record w { consecutive_late_blocks = 0 };
    }
unfolding check
check_restarts w c e armed late full =
    rw
      (
        armed.mailbox,
        armed.calm,
        late,
        count_late,
        no_wrap w.consecutive_late_blocks (omega (arith, armed.word)),
        leb_eq w.hard_timeout_blocks (suc w.consecutive_late_blocks) full,
        armed.callback,
      )
      refl

zero-mod : (h : ℕ) → 0 < h → 0 % h ≡ 0
zero-mod h pos = mod-eq_of_lt pos

not_zero : (n m : ℕ) → n ≡ suc m → (n == 0) ≡ false
not_zero n m e = ground arith

-- With a mailbox, a callback, a timeout of 1 to 2^32 - 1 blocks, no injected fault, and a count that
-- is the remainder of the late blocks in a row so far, the checks that restart the host are those
-- at which the number of late blocks in a row is a multiple of the timeout.
pub restarts_lem :
    (w : Watchdog) (ps : List Poll) (streak : ℕ)
    → IsArmed w
    → w.consecutive_late_blocks ≡ streak % w.hard_timeout_blocks
    → restarts w ps ≡ every_nth_late w.hard_timeout_blocks streak ps
unfolding restarts every_nth_late check
restarts_lem w [] streak armed e = refl
restarts_lem w (p ∷ ps) streak armed e = elim (Bool-cases (ltb p.completed p.expected)) [
  | inr timely ↦
      rw (timely, check_on_time w p.completed p.expected armed timely)
        (ap (◌∷◌ false) (
          restarts_lem (record w { consecutive_late_blocks = 0 }) ps 0 (IsArmed-at w 0 armed)
            (sym (zero-mod w.hard_timeout_blocks armed.positive))))
  | inl late ↦ elim (suc-mod streak w.hard_timeout_blocks armed.positive) [
    | inl (short, q) ↦
        let next = suc w.consecutive_late_blocks in
        rw (late, check_late w p.completed p.expected armed late (omega (arith, e)))
          (ap₂ (λ b bs. b ∷ bs)
            (sym (not_zero (suc streak % w.hard_timeout_blocks) (streak % w.hard_timeout_blocks) q))
            (restarts_lem (record w { consecutive_late_blocks = next }) ps (suc streak)
              (IsArmed-at w next armed) (omega (arith, e, q))))
    | inr (full, q) ↦
        rw (late, check_restarts w p.completed p.expected armed late (omega (arith, e)), q)
          (ap (◌∷◌ true) (
            restarts_lem (record w { consecutive_late_blocks = 0 }) ps (suc streak)
              (IsArmed-at w 0 armed) (sym q)))
  ]
]
