-- ===== src/Ring/Spsc.antt =====
-- One thread in `ringWrite` and one in `ringPop`, interleaved at each access to shared memory. The
-- loads and stores take effect in one order, as the acquire and release marks of the code are there
-- to ensure for the entries that an index publishes.
use mathlib.Core.List.{append_assoc}
use unidaw.Base.{
  ℕ, suc, ◌+◌, ◌-◌, ◌%◌, ◌<◌, ◌≡◌, refl, sym, ap, subst, ◌∙◌, ◌≢◌, List, [], ◌∷◌, ◌++◌, some, arith,
  length, length-set, set, get_or, get_or-set_self, get_or-set_ne,
}
use unidaw.Base.Window.{window, length-window, window-set_ahead, window-pop, mod_cases}
use unidaw.Ring.{RingHeader, EventEntry, blank, EventRingView, advance}
use unidaw.Ring.Valid.{IsValid, IsValid-move, advance_lem}
use unidaw.Ring.Refine.{used, write_at, used_write, used_read}

-- Where `ringWrite` stands, with its local `write` and its argument.
pub data Producer : Type 0 where
  idle : Producer
  ready : (write : ℕ) → EventEntry → Producer
  filled : (write : ℕ) → EventEntry → Producer

-- Where `ringPop` stands, with the local `read` of `ringPeek` and the entry that it copied.
pub data Consumer : Type 0 where
  idle : Consumer
  seen : (read : ℕ) → Consumer
  copied : EventEntry → Consumer

-- `sent` and `got` record the events of the calls that have returned true.
pub record System : Type 0 where
  pub header : RingHeader
  pub entries : List EventEntry
  pub mask : ℕ
  pub producer : Producer
  pub consumer : Consumer
  pub sent : List EventEntry
  pub got : List EventEntry

abbrev pub view : System → EventRingView
view s = record { header = some s.header; entries = s.entries; mask = s.mask }

pub data Step (s : System) : System → Type 0 where
  -- The loads of `ringWrite`, where its test for room passes.
  begin :
      (e : EventEntry)
      → s.producer ≡ Producer.idle
      → s.mask ≢ 0
      → advance (view s) s.header.write_index ≢ s.header.read_index
      → Step s (record s { producer = ready s.header.write_index e })
  -- `ring.entries[write] = entry`
  fill :
      (w : ℕ) (e : EventEntry)
      → s.producer ≡ ready w e
      → Step s (record s { entries = set s.entries w e; producer = filled w e })
  -- `writeIndex.store(next)`
  publish :
      (w : ℕ) (e : EventEntry)
      → s.producer ≡ filled w e
      → Step s (record s {
        header = record (s.header) { write_index = advance (view s) w };
        producer = Producer.idle;
        sent = s.sent ++ (e ∷ []);
      })
  -- The loads of `ringPeek`, where it finds the ring not empty.
  peek :
      s.consumer ≡ Consumer.idle
      → s.mask ≢ 0
      → s.header.read_index ≢ s.header.write_index
      → Step s (record s { consumer = seen s.header.read_index })
  -- `entry = ring.entries[read]`
  copy :
      (i : ℕ)
      → s.consumer ≡ seen i
      → Step s (record s { consumer = copied (get_or s.entries i blank) })
  -- `readIndex.store((read + 1) & mask)`
  release :
      (x : EventEntry)
      → s.consumer ≡ copied x
      → Step s (record s {
        header = record (s.header) { read_index = advance (view s) s.header.read_index };
        consumer = Consumer.idle;
        got = s.got ++ (x ∷ []);
      })

-- From an empty view on.
abbrev pub init : RingHeader → List EventEntry → ℕ → System
init h entries mask = record {
  header = h;
  entries = entries;
  mask = mask;
  producer = Producer.idle;
  consumer = Consumer.idle;
  sent = [];
  got = [];
}

pub data Reach (s : System) : System → Type 0 where
  here : Reach s s
  next : {t u : System} → Reach s t → Step t u → Reach s u

-- What a thread's locals say about the shared indices.
abbrev ProducerInv : System → Producer → Type 0
ProducerInv s Producer.idle = Unit
ProducerInv s (ready w e) = (w ≡ s.header.write_index) × (used s.header < s.header.capacity - 1)
ProducerInv s (filled w e) =
    (w ≡ s.header.write_index)
    × (used s.header < s.header.capacity - 1)
    × (get_or s.entries w blank ≡ e)

abbrev ConsumerInv : System → Consumer → Type 0
ConsumerInv s Consumer.idle = Unit
ConsumerInv s (seen i) = (i ≡ s.header.read_index) × (used s.header ≢ 0)
ConsumerInv s (copied x) = (used s.header ≢ 0) × (x ≡ get_or s.entries s.header.read_index blank)

abbrev pub waiting : System → List EventEntry
waiting s = window blank s.header.capacity s.entries s.header.read_index (used s.header)

pub record Inv (s : System) : Type 0 where
  pub valid : IsValid (view s) s.header
  pub producing : ProducerInv s s.producer
  pub consuming : ConsumerInv s s.consumer
  pub queue : s.sent ≡ s.got ++ waiting s

module _ {s : System} (inv : Inv s) where
  open inv use {valid}

  cap : ℕ
  cap = s.header.capacity

  -- The distance between the indices, which the threads rely on.
  apart : used s.header ≢ 0 → s.header.write_index ≢ s.header.read_index
  apart ne e = ne (
      omega (
        arith,
        valid.read_in,
        mod_cases (s.header.write_index + s.header.capacity - s.header.read_index)
            s.header.capacity,
      ))

  room_left :
      advance (view s) s.header.write_index ≢ s.header.read_index
      → used s.header < s.header.capacity - 1
  room_left room = ground (
    arith,
    valid.read_in,
    valid.write_in,
    advance_lem s.header.write_index valid,
    mod_cases (s.header.write_index + 1) s.header.capacity,
    mod_cases (s.header.write_index + s.header.capacity - s.header.read_index) s.header.capacity,
  )

  some_left : s.header.read_index ≢ s.header.write_index → used s.header ≢ 0
  some_left ne = ground (
    arith,
    valid.read_in,
    valid.write_in,
    mod_cases (s.header.write_index + s.header.capacity - s.header.read_index) s.header.capacity,
  )

  begin-Inv :
      (e : EventEntry)
      → advance (view s) s.header.write_index ≢ s.header.read_index
      → Inv (record s { producer = ready s.header.write_index e })
  begin-Inv e room = record {
    valid = valid;
    producing = (refl, room_left room);
    consuming = inv.consuming;
    queue = inv.queue;
  }

  peek-Inv :
      s.header.read_index ≢ s.header.write_index
      → Inv (record s { consumer = seen s.header.read_index })
  peek-Inv ne = record {
    valid = valid;
    producing = inv.producing;
    consuming = (refl, some_left ne);
    queue = inv.queue;
  }

  copy-Inv :
      (i : ℕ)
      → s.consumer ≡ seen i
      → Inv (record s { consumer = copied (get_or s.entries i blank) })
  copy-Inv i p = record {
    valid = valid;
    producing = inv.producing;
    consuming = (mine.1, ap (λ j. get_or s.entries j blank) mine.0);
    queue = inv.queue;
  }
    where
      mine : ConsumerInv s (seen i)
      mine = subst (ConsumerInv s) p inv.consuming

  -- The cell that is written lies past what is waiting, so the consumer does not see it change.
  fill-Inv :
      (w : ℕ) (e : EventEntry)
      → s.producer ≡ ready w e
      → Inv (record s { entries = set s.entries w e; producer = filled w e })
  fill-Inv w e p = record {
    valid =
        IsValid-move valid (set s.entries w e) s.header.read_index s.header.write_index
          (omega (arith, length-set s.entries w e, valid.room)) valid.read_in valid.write_in;
    producing = (
      mine.0,
      mine.1,
      get_or-set_self s.entries w e blank (omega (arith, mine.0, valid.room, valid.write_in)),
    );
    consuming = unread s.consumer inv.consuming;
    queue = inv.queue ∙ ap (λ xs. s.got ++ xs) (sym waits);
  }
    where
      mine : ProducerInv s (ready w e)
      mine = subst (ProducerInv s) p inv.producing

      waits :
          window blank s.header.capacity (set s.entries w e) s.header.read_index (used s.header)
          ≡ waiting s
      waits =
          subst
            (λ i.
              window blank s.header.capacity (set s.entries i e) s.header.read_index (used s.header)
              ≡ waiting s)
            (write_at s.header.capacity s.header.read_index s.header.write_index valid.read_in
                valid.write_in
              ∙ sym mine.0)
            (window-set_ahead blank s.header.capacity s.entries s.header.read_index (used s.header)
              (used s.header) e valid.read_in (omega arith) (omega (arith, mine.1)))

      unread :
          (c : Consumer)
          → ConsumerInv s c
          → ConsumerInv (record s { entries = set s.entries w e; producer = filled w e }) c
      unread Consumer.idle k = tt
      unread (seen i) k = k
      unread (copied x) k =
          (k.0, k.1 ∙ sym (get_or-set_ne s.entries e blank (λ q. apart k.0 (sym mine.0 ∙ q))))

  -- The new index takes in exactly the cell that was filled.
  publish-Inv :
      (w : ℕ) (e : EventEntry)
      → s.producer ≡ filled w e
      → Inv (record s {
        header = record (s.header) { write_index = advance (view s) w };
        producer = Producer.idle;
        sent = s.sent ++ (e ∷ []);
      })
  unfolding window
  publish-Inv w e p =
      subst
        (λ i. Inv (record s {
          header = record (s.header) { write_index = i };
          producer = Producer.idle;
          sent = s.sent ++ (e ∷ []);
        }))
        (sym (ap (advance (view s)) mine.0 ∙ advance_lem s.header.write_index valid valid.write_in))
        (record {
          valid =
              IsValid-move valid s.entries s.header.read_index next_write valid.room valid.read_in
                (omega (arith, valid.two));
          producing = tt;
          consuming = unread s.consumer inv.consuming;
          queue = rw (grown, last) (ap (λ xs. xs ++ (e ∷ [])) inv.queue ∙ append_assoc s.got _ _);
        })
    where
      mine : ProducerInv s (filled w e)
      mine = subst (ProducerInv s) p inv.producing

      next_write : ℕ
      next_write = (s.header.write_index + 1) % s.header.capacity

      grown : used (record (s.header) { write_index = next_write }) ≡ suc (used s.header)
      grown =
          used_write s.header.capacity s.header.read_index s.header.write_index valid.read_in
            valid.write_in mine.1

      last : get_or s.entries ((s.header.read_index + used s.header) % s.header.capacity) blank ≡ e
      last =
          ap (λ i. get_or s.entries i blank)
            (write_at s.header.capacity s.header.read_index s.header.write_index valid.read_in
                valid.write_in
              ∙ sym mine.0)
          ∙ mine.2

      unread :
          (c : Consumer)
          → ConsumerInv s c
          → ConsumerInv
              (record s {
                header = record (s.header) { write_index = next_write };
                producer = Producer.idle;
                sent = s.sent ++ (e ∷ []);
              })
              c
      unread Consumer.idle k = tt
      unread (seen i) k = (k.0, omega (arith, grown))
      unread (copied x) k = (omega (arith, grown), k.1)

  release-Inv :
      (x : EventEntry)
      → s.consumer ≡ copied x
      → Inv (record s {
        header = record (s.header) { read_index = advance (view s) s.header.read_index };
        consumer = Consumer.idle;
        got = s.got ++ (x ∷ []);
      })
  release-Inv x p =
      subst
        (λ i. Inv (record s {
          header = record (s.header) { read_index = i };
          consumer = Consumer.idle;
          got = s.got ++ (x ∷ []);
        }))
        (sym (advance_lem s.header.read_index valid valid.read_in))
        (record {
          valid =
              IsValid-move valid s.entries next_read s.header.write_index valid.room
                (omega (arith, valid.two)) valid.write_in;
          producing = unsent s.producer inv.producing;
          consuming = tt;
          queue = inv.queue ∙ ap (λ xs. s.got ++ xs) first ∙ sym (append_assoc s.got (x ∷ []) _);
        })
    where
      mine : ConsumerInv s (copied x)
      mine = subst (ConsumerInv s) p inv.consuming

      next_read : ℕ
      next_read = (s.header.read_index + 1) % s.header.capacity

      left : ℕ
      left = used (record (s.header) { read_index = next_read })

      shrunk : suc left ≡ used s.header
      shrunk =
          used_read s.header.capacity s.header.read_index s.header.write_index valid.read_in
            valid.write_in mine.0

      first : waiting s ≡ x ∷ window blank s.header.capacity s.entries next_read left
      first =
          ap (window blank s.header.capacity s.entries s.header.read_index) (sym shrunk)
          ∙ window-pop blank s.header.capacity s.entries s.header.read_index left valid.read_in
          ∙ ap (λ y. y ∷ window blank s.header.capacity s.entries next_read left) (sym mine.1)

      unsent :
          (q : Producer)
          → ProducerInv s q
          → ProducerInv
              (record s {
                header = record (s.header) { read_index = next_read };
                consumer = Consumer.idle;
                got = s.got ++ (x ∷ []);
              })
              q
      unsent Producer.idle k = tt
      unsent (ready w e) k = (k.0, omega (arith, shrunk, k.1))
      unsent (filled w e) k = (k.0, omega (arith, shrunk, k.1), k.2)

Step-Inv : {s t : System} → Step s t → Inv s → Inv t
Step-Inv (begin e p masked room) inv = begin-Inv inv e room
Step-Inv (fill w e p) inv = fill-Inv inv w e p
Step-Inv (publish w e p) inv = publish-Inv inv w e p
Step-Inv (peek p masked ne) inv = peek-Inv inv ne
Step-Inv (copy i p) inv = copy-Inv inv i p
Step-Inv (release x p) inv = release-Inv inv x p

Reach-Inv : {s t : System} → Inv s → Reach s t → Inv t
Reach-Inv inv here = inv
Reach-Inv inv (next r st) = Step-Inv st (Reach-Inv inv r)

init-Inv :
    (h : RingHeader) (entries : List EventEntry) (mask : ℕ)
    → IsValid (record { header = some h; entries = entries; mask = mask }) h
    → h.read_index ≡ h.write_index
    → Inv (init h entries mask)
unfolding window
init-Inv h entries mask v e = record {
  valid = v;
  producing = tt;
  consuming = tt;
  queue = sym (
      nothing_waits (used h) (
        omega
          (arith, v.read_in, mod_cases (h.write_index + h.capacity - h.read_index) h.capacity)));
}
  where
    nothing_waits : (n : ℕ) → n ≡ 0 → window blank h.capacity entries h.read_index n ≡ []
    nothing_waits n z = ap (window blank h.capacity entries h.read_index) z

-- However the two threads interleave from an empty usable view on, the events received are the
-- first of those sent, in order, and those still to come are fewer than the capacity.
pub spsc_fifo :
    (h : RingHeader) (entries : List EventEntry) (mask : ℕ) {t : System}
    → IsValid (record { header = some h; entries = entries; mask = mask }) h
    → h.read_index ≡ h.write_index
    → Reach (init h entries mask) t
    → (rest : List EventEntry) × (t.sent ≡ t.got ++ rest) × (length rest < t.header.capacity)
spsc_fifo h entries mask {t} v e r = (
  waiting t,
  inv.queue,
  omega (
    arith,
    inv.valid.read_in,
    length-window blank t.header.capacity t.entries t.header.read_index (used t.header),
  ),
)
  where
    inv : Inv t
    inv = Reach-Inv (init-Inv h entries mask v e) r
