-- ===== src/Ring/Valid.antt =====
-- When a view is usable, and that no call leaves that state or indexes outside the entries.
use Prim.Native.Nat.{bit_and}
use native.Mathlib.Nat.{mod-eq_of_lt}
use unidaw.Base.{
  ℕ, ◌+◌, ◌-◌, ◌%◌, ◌^◌, ◌≤◌, ◌<◌, ◌≡◌, refl, sym, ap, subst, ◌∙◌, true, List, some, arith, length,
}
use unidaw.Base.Bits.{pow2, bit_and-mask, bit_and-pred}
use unidaw.Base.Words.{add32}
use unidaw.Ring.{RingHeader, EventEntry, EventRingView, is_power_of_two, make_event_ring, advance}

-- The view is over the header `h`, whose capacity is a power of two, at least 2.
pub record IsValid (r : EventRingView) (h : RingHeader) : Type 0 where
  pub over : r.header ≡ some h
  pub digits : ℕ
  pub power : h.capacity ≡ pow2 digits
  pub two : 2 ≤ h.capacity
  pub small : h.capacity < 2 ^ 32
  pub masked : r.mask + 1 ≡ h.capacity
  pub room : h.capacity ≤ length r.entries
  pub read_in : h.read_index < h.capacity
  pub write_in : h.write_index < h.capacity

-- A call moves an index or writes a cell, and leaves the rest.
pub IsValid-move :
    {r : EventRingView} {h : RingHeader}
    → IsValid r h
    → (entries : List EventEntry) (read write : ℕ) → h.capacity ≤ length entries
    → read < h.capacity
    → write < h.capacity
    → let h' = record h { read_index = read; write_index = write } in
      IsValid (record { header = some h'; entries = entries; mask = r.mask }) h'
IsValid-move v entries read write room read_in write_in = record {
  over = refl;
  digits = v.digits;
  power = v.power;
  two = v.two;
  small = v.small;
  masked = v.masked;
  room = room;
  read_in = read_in;
  write_in = write_in;
}

-- The masked increment goes round at the capacity.
pub advance_lem :
    {r : EventRingView} {h : RingHeader} (i : ℕ)
    → IsValid r h
    → i < h.capacity
    → advance r i ≡ (i + 1) % h.capacity
advance_lem {r} {h} i v lt =
    subst (λ m. bit_and (add32 i 1) m ≡ (i + 1) % h.capacity) (sym mask_eq)
      (bit_and-mask v.digits (add32 i 1)
        ∙ subst (λ c. add32 i 1 % c ≡ (i + 1) % h.capacity) v.power
            (ap (λ x. x % h.capacity) (mod-eq_of_lt {n = i + 1} (omega (arith, v.small)))))
  where
    mask_eq : r.mask ≡ pow2 v.digits - 1
    mask_eq = omega (arith, v.masked, v.power)

is_power_of_two-power : (v : ℕ) → is_power_of_two v ≡ true → (k : ℕ) × (v ≡ pow2 k)
unfolding is_power_of_two
is_power_of_two-power v h = bit_and-pred v v (omega arith) (ground arith) (ground arith)

-- A view over a header in memory is usable, if the capacity is a power of two from 2 to 2 ^ 31, as
-- many entries lie behind the header, and both indices are in range.
pub make_event_ring-IsValid :
    (h : RingHeader) (entries : List EventEntry)
    → is_power_of_two h.capacity ≡ true
    → 2 ≤ h.capacity
    → h.capacity < 2 ^ 32
    → h.capacity ≤ length entries
    → h.read_index < h.capacity
    → h.write_index < h.capacity
    → IsValid (make_event_ring (some (h, entries))) h
unfolding make_event_ring
make_event_ring-IsValid h entries p two small room read_in write_in = record {
  over = refl;
  digits = (is_power_of_two-power h.capacity p).0;
  power = (is_power_of_two-power h.capacity p).1;
  two = two;
  small = small;
  masked = ground arith;
  room = room;
  read_in = read_in;
  write_in = write_in;
}
