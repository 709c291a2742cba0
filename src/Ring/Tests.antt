-- ===== src/Ring/Tests.antt =====
-- The ring on concrete headers: events wrapped round the end, a full ring, an interleaving.
use unidaw.Base.{ℕ, ◌<◌, ◌≡◌, refl, true, List, [], ◌∷◌, ◌++◌, some, arith, length, set}
use unidaw.Base.Bits.{pow2}
use unidaw.Base.Window.{window}
use unidaw.Ring.{
  RingHeader, EventEntry, blank, EventRingView, is_power_of_two, make_event_ring, ring_write,
}
use unidaw.Ring.Valid.{IsValid, make_event_ring-IsValid}
use unidaw.Ring.Refine.{Holds, push, ring_write_refines}
use unidaw.Ring.Spsc.{System, Reach, here, next, begin, fill, publish, init, spsc_fifo}

abbrev entry : ℕ → EventEntry
entry n = record blank { block_id = n }

abbrev memory : List EventEntry
memory = entry 2 ∷ entry 3 ∷ blank ∷ entry 1 ∷ []

-- Entries 1 and 2, round the end.
abbrev wrapped : RingHeader
wrapped = record { capacity = 4; entry_size = 64; read_index = 3; write_index = 1 }

abbrev wrapped_view : EventRingView
wrapped_view = record { header = some wrapped; entries = memory; mask = 3 }

wrapped_view_made : make_event_ring (some (wrapped, memory)) ≡ wrapped_view
unfolding make_event_ring
wrapped_view_made = refl

odd_capacity_refused : (make_event_ring (some (record wrapped { capacity = 6 }, memory))).mask ≡ 0
unfolding make_event_ring
odd_capacity_refused = refl

wrapped-IsValid : IsValid wrapped_view wrapped
unfolding pow2
wrapped-IsValid = record {
  over = refl;
  digits = 2;
  power = refl;
  two = omega arith;
  small = omega arith;
  masked = refl;
  room = omega arith;
  read_in = omega arith;
  write_in = omega arith;
}

abbrev wrapped_queue : List EventEntry
wrapped_queue = entry 1 ∷ entry 2 ∷ []

wrapped-Holds : Holds 4 wrapped_view wrapped_queue
unfolding window
wrapped-Holds = record { at = wrapped; valid = wrapped-IsValid; size = refl; content = refl }

write_accepts : (ring_write wrapped_view (entry 9)).0 ≡ true
unfolding ring_write
write_accepts = refl

make_event_ring-IsValid_example : IsValid (make_event_ring (some (wrapped, memory))) wrapped
unfolding is_power_of_two
make_event_ring-IsValid_example =
    make_event_ring-IsValid wrapped memory refl (omega arith) (omega arith) (omega arith)
      (omega arith) (omega arith)

ring_write_refines_example :
    ((ring_write wrapped_view (entry 9)).0 ≡ (push 3 wrapped_queue (entry 9)).0)
    × Holds 4 (ring_write wrapped_view (entry 9)).1 (push 3 wrapped_queue (entry 9)).1
ring_write_refines_example = ring_write_refines 4 wrapped_view wrapped_queue (entry 9) wrapped-Holds

abbrev drained : RingHeader
drained = record wrapped { write_index = 3 }

drained-IsValid : IsValid (record wrapped_view { header = some drained }) drained
unfolding pow2
drained-IsValid = record {
  over = refl;
  digits = 2;
  power = refl;
  two = omega arith;
  small = omega arith;
  masked = refl;
  room = omega arith;
  read_in = omega arith;
  write_in = omega arith;
}

abbrev one_sent : System
one_sent = record (init drained memory 3) {
  header = record drained { write_index = 0 };
  entries = set memory 3 (entry 7);
  sent = entry 7 ∷ [];
}

one_sent-Reach : Reach (init drained memory 3) one_sent
one_sent-Reach =
    next
      (next (next here (begin (entry 7) refl (omega arith) (omega arith))) (fill 3 (entry 7) refl))
      (publish 3 (entry 7) refl)

spsc_fifo_example : (rest : List EventEntry) × (entry 7 ∷ [] ≡ [] ++ rest) × (length rest < 4)
spsc_fifo_example = spsc_fifo drained memory 3 drained-IsValid refl one_sent-Reach
