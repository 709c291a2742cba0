-- ===== src/Watchdog.antt =====
-- apps/watchdog.h: the check, once for each block, that a plugin host keeps up.
pub mod Streak
mod Tests
use unidaw.Base.{ℕ, Bool, true, false, ◌&&◌, ◌||◌, not, List, [], ◌∷◌, if◌then◌else◌, ltb, leb}
use unidaw.Base.Words.{add32}

pub data FaultType : Type 0 where
  no_fault transient_late hard_hang : FaultType

-- The mailbox and the callback may be null. What the callback does is outside: a call of it is
-- a flag of the result.
pub record Watchdog : Type 0 where
  pub has_mailbox : Bool
  pub hard_timeout_blocks : ℕ
  pub has_on_restart : Bool
  pub consecutive_late_blocks : ℕ
  pub fault : FaultType

abbrev pub inject_fault : Watchdog → FaultType → Watchdog
inject_fault w type = record w { fault = type }

abbrev pub reset : Watchdog → Watchdog
reset w = record w { consecutive_late_blocks = 0; fault = FaultType.no_fault }

pub record Checked : Type 0 where
  pub ready : Bool
  pub restarted : Bool
  pub watchdog : Watchdog

-- A late block: the count, and the restart when it reaches the limit.
abbrev pub count_late : Watchdog → Checked
count_late w =
    let counted = record w { consecutive_late_blocks = add32 w.consecutive_late_blocks 1 } in
    if leb w.hard_timeout_blocks counted.consecutive_late_blocks && w.has_on_restart
    then (record { ready = false; restarted = true; watchdog = reset counted })
    else (record { ready = false; restarted = false; watchdog = counted })

abbrev pub check_completed : Watchdog → ℕ → ℕ → Checked
check_completed w completed expected = if ltb completed expected then count_late w else (record {
  ready = true;
  restarted = false;
  watchdog = record w { consecutive_late_blocks = 0 };
})

abbrev pub check_fault : FaultType → Watchdog → ℕ → ℕ → Checked
check_fault FaultType.no_fault w completed expected = check_completed w completed expected
check_fault FaultType.transient_late w completed expected = record {
  ready = false;
  restarted = false;
  watchdog = record w { fault = FaultType.no_fault };
}
check_fault FaultType.hard_hang w completed expected = count_late w

-- `completed` is what the load of the mailbox's completedBlockId reads.
unfoldable pub check : Watchdog → (completed expected_block_id : ℕ) → Checked
check w completed expected =
    if w.has_mailbox
    then check_fault w.fault w completed expected
    else (record { ready = false; restarted = false; watchdog = w })
