-- ===== src/Clip/Order.antt =====
-- The events of a clip stay sorted by tick, which every binary search of the program relies on.
use unidaw.Base.{
  ℕ, ◌≡◌, refl, subst, sym, ap, List, [], ◌∷◌, Option, none, some, inl, inr, Bool, arith, IsSorted,
  remove_if-IsSorted, insert_at-IsSorted, extract, extract-IsSorted, Option-cases,
}
use unidaw.Event.{MusicalEvent, tick}
use unidaw.Clip.{
  MusicalClip, empty, number_event, add_event, place, allocate_note_id, take_first, remove_note_at,
  remove_notes_at, remove_chords_at, remove_all_events_at, remove_chord_at, remove_chord_by_id,
}
use unidaw.Clip.Span.{remove_note_offs_after, remove_note_offs_in_span}

-- The public calls of `MusicalClip` that change it.
pub data Op : Type 0 where
  add : MusicalEvent → Op
  allocate : Option ℕ → Op
  note_at chord_at : (nanotick column : ℕ) → Op
  notes_at chords_at all_at : (nanotick : ℕ) → Op
  chord_by_id : (id : ℕ) → Op
  offs_after offs_in_span : (nanotick column : ℕ) → Op

unfoldable pub step : MusicalClip → Op → MusicalClip
step c (add e) = add_event c e
step c (allocate id) = (allocate_note_id c id).1
step c (note_at t k) = (remove_note_at c t k).1
step c (chord_at t k) = (remove_chord_at c t k).1
step c (notes_at t) = remove_notes_at c t
step c (chords_at t) = remove_chords_at c t
step c (all_at t) = remove_all_events_at c t
step c (chord_by_id id) = (remove_chord_by_id c id).1
step c (offs_after t k) = remove_note_offs_after c t k
step c (offs_in_span t k) = remove_note_offs_in_span c t k

unfoldable pub run : MusicalClip → List Op → MusicalClip
unfolding step
run c [] = c
run c (op ∷ ops) = run (step c op) ops

pub number_event-tick : (c : MusicalClip) (e : MusicalEvent) → tick (number_event c e).0 ≡ tick e
unfolding number_event
number_event-tick c e = ground arith

pub number_event-events :
    (c : MusicalClip) (e : MusicalEvent) → (number_event c e).1.events ≡ c.events
unfolding number_event
number_event-events c e = ground arith

pub add_event-events :
    (c : MusicalClip) (e : MusicalEvent)
    → (add_event c e).events ≡ place c.events (number_event c e).0
unfolding add_event
add_event-events c e = ap (λ es. place es (number_event c e).0) (number_event-events c e)

pub allocate-events :
    (c : MusicalClip) (id : Option ℕ) → (allocate_note_id c id).1.events ≡ c.events
unfolding allocate_note_id
allocate-events c none = refl
allocate-events c (some id) = ground arith

abbrev pub Sorted : MusicalClip → Type 0
Sorted c = IsSorted tick c.events

pub add_event-Sorted : (c : MusicalClip) (e : MusicalEvent) → Sorted c → Sorted (add_event c e)
add_event-Sorted c e h =
    subst (IsSorted tick) (sym (add_event-events c e)) (insert_at-IsSorted tick c.events _ h)

pub take_first-Sorted {ℓ} :
    {R : Type ℓ} (p : MusicalEvent → Bool) (f : MusicalEvent → R) (c : MusicalClip)
    → Sorted c
    → Sorted (take_first p f c).1
unfolding take_first
take_first-Sorted p f c h = elim (Option-cases (extract p c.events)) [
  | inl z ↦ rw (z, take_first) h
  | inr ((e, rest), z) ↦ rw (z, take_first) (extract-IsSorted tick p c.events z h)
]

pub step-Sorted : (c : MusicalClip) (op : Op) → Sorted c → Sorted (step c op)
unfolding step remove_note_at remove_chord_at remove_notes_at remove_chords_at remove_all_events_at
    remove_chord_by_id remove_note_offs_after remove_note_offs_in_span allocate_note_id
step-Sorted c (add e) h = add_event-Sorted c e h
step-Sorted c (allocate none) h = h
step-Sorted c (allocate (some id)) h = ground arith
step-Sorted c (note_at t k) h = take_first-Sorted _ _ c h
step-Sorted c (chord_at t k) h = take_first-Sorted _ _ c h
step-Sorted c (notes_at t) h = remove_if-IsSorted tick _ c.events h
step-Sorted c (chords_at t) h = remove_if-IsSorted tick _ c.events h
step-Sorted c (all_at t) h = remove_if-IsSorted tick _ c.events h
step-Sorted c (chord_by_id id) h = take_first-Sorted _ _ c h
step-Sorted c (offs_after t k) h = remove_if-IsSorted tick _ c.events h
step-Sorted c (offs_in_span t k) h = remove_if-IsSorted tick _ c.events h

run-Sorted_from : (c : MusicalClip) (ops : List Op) → Sorted c → Sorted (run c ops)
unfolding run
run-Sorted_from c [] h = h
run-Sorted_from c (op ∷ ops) h = run-Sorted_from (step c op) ops (step-Sorted c op h)

-- After any calls on a new clip its events are in ascending order of their ticks.
pub run-Sorted : (ops : List Op) → IsSorted tick (run empty ops).events
run-Sorted ops = run-Sorted_from empty ops tt
