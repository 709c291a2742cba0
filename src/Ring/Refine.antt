-- ===== src/Ring/Refine.antt =====
-- A usable ring behaves as a FIFO queue that holds one event less than its capacity.
use unidaw.Base.{
  ℕ, suc, ◌+◌, ◌-◌, ◌%◌, ◌<◌, ◌≡◌, refl, sym, ap, subst, subst₂, ◌∙◌, ◌≢◌, inl, inr, Bool, true,
  false, List, [], ◌∷◌, ◌++◌, some, arith, length, length-set, set, get_or, ltb, ltb→lt,
  if◌then◌else◌, ◌==◌, Bool-cases,
}
use unidaw.Base.Window.{window, length-window, window-push, window-pop, mod_cases}
use unidaw.Ring.{RingHeader, EventEntry, blank, EventRingView, ring_write, ring_pop}
use unidaw.Ring.Valid.{IsValid, IsValid-move, advance_lem}

-- The number of events that the two indices leave between them.
abbrev pub used : RingHeader → ℕ
used h = (h.write_index + h.capacity - h.read_index) % h.capacity

-- The queue of a bounded number of events, oldest first.
unfoldable pub push : ℕ → List EventEntry → EventEntry → Bool × List EventEntry
push limit q x = if ltb (length q) limit then (true, q ++ (x ∷ [])) else (false, q)

unfoldable pub pop : List EventEntry → EventEntry → Bool × EventEntry × List EventEntry
pop [] out = (false, out, [])
pop (x ∷ q) out = (true, x, q)

-- The view is usable at capacity `cap`, and its cells from the read index on hold `q`.
pub record Holds (cap : ℕ) (r : EventRingView) (q : List EventEntry) : Type 0 where
  pub at : RingHeader
  pub valid : IsValid r at
  pub size : at.capacity ≡ cap
  pub content : window blank at.capacity r.entries at.read_index (used at) ≡ q

-- `ring_write` in terms of the number of events held, with the increment read as round the capacity.
pub ring_write_lem :
    (r : EventRingView) (h : RingHeader) (e : EventEntry)
    → IsValid r h
    → ring_write r e ≡ (
        if ltb (used h) (h.capacity - 1)
        then (
          true,
          record r {
            header = some (record h { write_index = (h.write_index + 1) % h.capacity });
            entries = set r.entries h.write_index e;
          },
        )
        else (false, r))
unfolding ring_write
ring_write_lem r h e v = ground (
  arith,
  advance_lem h.write_index v,
  mod_cases (h.write_index + 1) h.capacity,
  mod_cases (h.write_index + h.capacity - h.read_index) h.capacity,
)

pub ring_pop_lem :
    (r : EventRingView) (h : RingHeader) (e : EventEntry)
    → IsValid r h
    → ring_pop r e ≡ (
        if used h == 0 then (false, e, r) else (
          true,
          get_or r.entries h.read_index e,
          record r { header = some (record h { read_index = (h.read_index + 1) % h.capacity }) },
        ))
unfolding ring_pop
ring_pop_lem r h e v = ground (
  arith,
  advance_lem h.read_index v,
  mod_cases (h.write_index + h.capacity - h.read_index) h.capacity,
)

-- Places round the ring, from the two indices.
pub write_at : (c r w : ℕ) → r < c → w < c → (r + (w + c - r) % c) % c ≡ w
write_at c r w hr hw = ground (arith, mod_cases (w + c - r) c, mod_cases (r + (w + c - r) % c) c)

pub used_write :
    (c r w : ℕ)
    → r < c
    → w < c
    → (w + c - r) % c < c - 1
    → ((w + 1) % c + c - r) % c ≡ suc ((w + c - r) % c)
used_write c r w hr hw lt =
    ground (arith, mod_cases (w + c - r) c, mod_cases (w + 1) c, mod_cases ((w + 1) % c + c - r) c)

pub used_read :
    (c r w : ℕ)
    → r < c
    → w < c
    → (w + c - r) % c ≢ 0
    → suc ((w + c - (r + 1) % c) % c) ≡ (w + c - r) % c
used_read c r w hr hw ne =
    ground (arith, mod_cases (w + c - r) c, mod_cases (r + 1) c, mod_cases (w + c - (r + 1) % c) c)

module _ {r : EventRingView} {h : RingHeader} (v : IsValid r h) where
  abbrev cells : List EventEntry
  cells = window blank h.capacity r.entries h.read_index (used h)

  pub after_write :
      (e : EventEntry)
      → used h < h.capacity - 1
      → Holds h.capacity
          (record r {
            header = some (record h { write_index = (h.write_index + 1) % h.capacity });
            entries = set r.entries h.write_index e;
          })
          (cells ++ (e ∷ []))
  after_write e lt = record {
    at = record h { write_index = (h.write_index + 1) % h.capacity };
    valid =
        IsValid-move v (set r.entries h.write_index e) h.read_index
          ((h.write_index + 1) % h.capacity)
          (omega (arith, length-set r.entries h.write_index e, v.room)) v.read_in
          (omega (arith, v.two));
    size = refl;
    content = rw (used_write h.capacity h.read_index h.write_index v.read_in v.write_in lt) (
        subst
          (λ i.
            window blank h.capacity (set r.entries i e) h.read_index (suc (used h))
            ≡ cells ++ (e ∷ []))
          (write_at h.capacity h.read_index h.write_index v.read_in v.write_in)
          (window-push blank h.capacity r.entries h.read_index (used h) e v.room v.read_in
            (omega (arith, lt))));
  }

  pub after_pop :
      used h ≢ 0
      → (q : List EventEntry) × (cells ≡ get_or r.entries h.read_index blank ∷ q)
        × Holds h.capacity
            (record r { header = some (record h { read_index = (h.read_index + 1) % h.capacity }) })
            q
  after_pop ne = (
    window blank h.capacity r.entries ((h.read_index + 1) % h.capacity) left,
    ap (window blank h.capacity r.entries h.read_index) (sym one_less)
        ∙ window-pop blank h.capacity r.entries h.read_index left v.read_in,
    record {
      at = record h { read_index = (h.read_index + 1) % h.capacity };
      valid =
          IsValid-move v r.entries ((h.read_index + 1) % h.capacity) h.write_index v.room
            (omega (arith, v.two)) v.write_in;
      size = refl;
      content = refl;
    },
  )
    where
      left : ℕ
      left = (h.write_index + h.capacity - (h.read_index + 1) % h.capacity) % h.capacity

      one_less : suc left ≡ used h
      one_less = used_read h.capacity h.read_index h.write_index v.read_in v.write_in ne

  -- Both answers at once, for the queue written as the cells.
  Written : EventEntry → Bool × EventRingView → Type 0
  Written e out =
      (out.0 ≡ (push (h.capacity - 1) cells e).0)
      × Holds h.capacity out.1 (push (h.capacity - 1) cells e).1

  still : Holds h.capacity r cells
  still = record { at = h; valid = v; size = refl; content = refl }

  write_answers : (e : EventEntry) → Written e (ring_write r e)
  unfolding Written push still
  write_answers e =
      rw (ring_write_lem r h e v, length-window blank h.capacity r.entries h.read_index (used h))
        (elim (Bool-cases (ltb (used h) (h.capacity - 1))) [
          | inl room ↦ rw room (refl, after_write e (ltb→lt (used h) (h.capacity - 1) room))
          | inr full ↦ rw full (refl, still)
        ])

  Popped : EventEntry → List EventEntry → Bool × EventEntry × EventRingView → Type 0
  Popped e q out =
      (out.0 ≡ (pop q e).0) × (out.1 ≡ (pop q e).1) × Holds h.capacity out.2 (pop q e).2

-- `ringWrite` answers as the queue of one event less than the capacity does, and leaves the ring
-- holding that queue: a full ring refuses the event and keeps what it holds.
pub ring_write_refines :
    (cap : ℕ) (r : EventRingView) (q : List EventEntry) (e : EventEntry)
    → Holds cap r q
    → ((ring_write r e).0 ≡ (push (cap - 1) q e).0)
      × Holds cap (ring_write r e).1 (push (cap - 1) q e).1
unfolding Written
ring_write_refines cap r q e held =
    subst₂
      (λ c xs.
        ((ring_write r e).0 ≡ (push (c - 1) xs e).0)
        × Holds c (ring_write r e).1 (push (c - 1) xs e).1)
      held.size held.content (write_answers held.valid e)
