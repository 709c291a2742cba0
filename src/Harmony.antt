-- ===== src/Harmony.antt =====
-- apps/harmony_timeline.cpp: the harmony events of a song, in the order of their ticks.
pub mod Lookup
mod Tests
use unidaw.Base.{
  ℕ, suc, ◌-◌, List, [], ◌∷◌, Option, none, some, ◌==◌, if◌then◌else◌, leb, lower_bound, get_elem?,
}

pub record HarmonyEvent : Type 0 where
  pub nanotick : ℕ
  pub root : ℕ
  pub scale_id : ℕ
  pub flags : ℕ

abbrev pub tick_of : HarmonyEvent → ℕ
tick_of e = e.nanotick

pub find_harmony_index : List HarmonyEvent → ℕ → Option ℕ
find_harmony_index events nanotick =
    let i = lower_bound tick_of events nanotick in
    elim (get_elem? events i) [
      | none ↦ none
      | some e ↦ if e.nanotick == nanotick then some i else none
    ]

-- std::upper_bound on a sequence sorted by tick: the first position whose tick is above `nanotick`.
abbrev pub upper_bound : List HarmonyEvent → ℕ → ℕ
upper_bound [] nanotick = 0
upper_bound (e ∷ es) nanotick = if leb e.nanotick nanotick then suc (upper_bound es nanotick) else 0

unfoldable pub harmony_at : List HarmonyEvent → ℕ → Option HarmonyEvent
harmony_at [] nanotick = none
harmony_at (e ∷ es) nanotick =
    let i = upper_bound (e ∷ es) nanotick in if i == 0 then none else get_elem? (e ∷ es) (i - 1)
