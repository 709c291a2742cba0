-- ===== src/Ring.antt =====
-- apps/event_ring.cpp over the structs of apps/shared_memory.h: the ring of events that the engine
-- shares with a plugin host or the UI. One call at a time here; `Ring.Spsc` has both threads.
pub mod Valid
pub mod Refine
pub mod Spsc
mod Tests
use Prim.Native.Nat.{bit_and}
use unidaw.Base.{
  ℕ, ◌+◌, ◌-◌, Bool, true, false, ◌&&◌, ◌||◌, not, List, [], Option, none, some, ◌==◌, get_or, set,
  replicate, if◌then◌else◌,
}
use unidaw.Base.Words.{add32}

-- The indices are atomics; a field here is the value of its last store.
pub record RingHeader : Type 0 where
  pub capacity : ℕ
  pub entry_size : ℕ
  pub read_index : ℕ
  pub write_index : ℕ

pub record EventEntry : Type 0 where
  pub sample_time : ℕ
  pub block_id : ℕ
  pub type : ℕ
  pub size : ℕ
  pub flags : ℕ
  pub payload : List ℕ

-- A value-initialised entry, `EventEntry{}`.
abbrev pub blank : EventEntry
blank = record {
  sample_time = 0;
  block_id = 0;
  type = 0;
  size = 0;
  flags = 0;
  payload = replicate 40 0;
}

-- The header pointer may be null. The entries that follow it in memory are a list.
pub record EventRingView : Type 0 where
  pub header : Option RingHeader
  pub entries : List EventEntry
  pub mask : ℕ

pub is_power_of_two : ℕ → Bool
is_power_of_two value = not (value == 0) && (bit_and value (value - 1) == 0)

-- What lies at `base + offset`: null, or a header with the entries behind it.
pub make_event_ring : Option (RingHeader × List EventEntry) → EventRingView
unfolding is_power_of_two
make_event_ring none = record { header = none; entries = []; mask = 0 }
make_event_ring (some (h, entries)) = record {
  header = some h;
  entries = entries;
  mask = if is_power_of_two h.capacity then h.capacity - 1 else 0;
}

-- `(i + 1) & ring.mask`.
abbrev pub advance : EventRingView → ℕ → ℕ
advance r i = bit_and (add32 i 1) r.mask

abbrev write_to : EventRingView → RingHeader → EventEntry → Bool × EventRingView
write_to r h entry =
    if r.mask == 0
    then (false, r)
    else if advance r h.write_index == h.read_index
    then (false, r)
    else (
      true,
      record r {
        header = some (record h { write_index = advance r h.write_index });
        entries = set r.entries h.write_index entry;
      },
    )

pub ring_write : EventRingView → EventEntry → Bool × EventRingView
ring_write r entry = elim r.header [ none ↦ (false, r) | some h ↦ write_to r h entry ]

abbrev peek_at : EventRingView → RingHeader → EventEntry → Bool × EventEntry
peek_at r h entry =
    if r.mask == 0
    then (false, entry)
    else if h.read_index == h.write_index
    then (false, entry)
    else (true, get_or r.entries h.read_index entry)

-- The second argument and result are the reference `entry`, before and after the call.
pub ring_peek : EventRingView → EventEntry → Bool × EventEntry
ring_peek r entry = elim r.header [ none ↦ (false, entry) | some h ↦ peek_at r h entry ]

abbrev bump_read : EventRingView → EventRingView
bump_read r = elim r.header [
  | none ↦ r
  | some h ↦ record r { header = some (record h { read_index = advance r h.read_index }) }
]

pub ring_pop : EventRingView → EventEntry → Bool × EventEntry × EventRingView
unfolding ring_peek
ring_pop r entry =
    let (found, out) = ring_peek r entry in
    if found then (true, out, bump_read r) else (false, out, r)
