-- ===== src/Watchdog/Tests.antt =====
-- A watchdog of two blocks.
use unidaw.Base.{ℕ, ◌≡◌, refl, true, false, List, [], ◌∷◌, arith}
use unidaw.Watchdog.{FaultType, Watchdog, check, inject_fault}
use unidaw.Watchdog.Streak.{Poll, IsArmed, restarts, every_nth_late, restarts_lem}

abbrev fresh : Watchdog
fresh = record {
  has_mailbox = true;
  hard_timeout_blocks = 2;
  has_on_restart = true;
  consecutive_late_blocks = 0;
  fault = FaultType.no_fault;
}

abbrev poll : ℕ → ℕ → Poll
poll completed expected = record { completed = completed; expected = expected }

abbrev stalled : List Poll
stalled = poll 4 4 ∷ poll 4 5 ∷ poll 4 6 ∷ poll 4 7 ∷ poll 8 8 ∷ poll 8 9 ∷ []

restarts-stalled : restarts fresh stalled ≡ false ∷ false ∷ true ∷ false ∷ false ∷ false ∷ []
unfolding restarts check
restarts-stalled = refl

transient_not_counted : (check (inject_fault fresh FaultType.transient_late) 0 9).watchdog ≡ fresh
unfolding check
transient_not_counted = refl

fresh-IsArmed : IsArmed fresh
fresh-IsArmed = record {
  mailbox = refl;
  callback = refl;
  positive = omega arith;
  word = omega arith;
  calm = refl;
}

restarts_lem_example : restarts fresh stalled ≡ every_nth_late 2 0 stalled
restarts_lem_example = restarts_lem fresh stalled 0 fresh-IsArmed refl
