-- ===== src/Clip/Cells.antt =====
-- A tracker cell is a tick and a column. It shows the notes and the chords of the clip there.
use mathlib.Core.List.{Memᴰ}
use unidaw.Base.{
  lower_bound, ℕ, ◌+◌, ◌≤◌, ◌≡◌, refl, ap, ◌∙◌, Bool, true, ◌||◌, List, [], ◌∷◌, some, none, inl,
  inr, arith, extract, extract_absent, extract-insert_at, extract-none, extract-some, Option-cases,
  zero, suc, sym, subst, insert_at, Bool-cases, ◌==◌,
}
use unidaw.Base.Count.{none_of_count, one_if, count, count-insert_at, count-extract, count_none}
use unidaw.Event.{MusicalEvent, is_note, tick}
use unidaw.Clip.{
  MusicalClip, note_at, chord_at, removed_note, removed_chord, take_first, remove_note_at,
  remove_chord_at, add_event, number_event, place, with_note_id, allocate_note_id,
}
use unidaw.Clip.Order.{add_event-events}

-- Whether the event is shown in the cell.
abbrev pub shown : ℕ → ℕ → MusicalEvent → Bool
shown t k e = note_at t k e || chord_at t k e

-- How many events the cell shows.
abbrev pub cell : ℕ → ℕ → MusicalClip → ℕ
cell t k c = count (shown t k) c.events

-- No cell shows two events.
abbrev pub CellsUnique : MusicalClip → Type 0
CellsUnique c = (t k : ℕ) → cell t k c ≤ 1

one_if-shown :
    (t k : ℕ) (e : MusicalEvent)
    → one_if (shown t k e) ≡ one_if (note_at t k e) + one_if (chord_at t k e)
one_if-shown t k e = ground arith

cell_parts :
    (t k : ℕ) (es : List MusicalEvent)
    → count (shown t k) es ≡ count (note_at t k) es + count (chord_at t k) es
unfolding count
cell_parts t k [] = refl
cell_parts t k (e ∷ es) = omega (arith, cell_parts t k es, one_if-shown t k e)

module _ {ℓ} {R : Type ℓ} (p : MusicalEvent → Bool) (f : MusicalEvent → R) (c : MusicalClip) where
  -- Taking an event out adds none to any test, and takes one from its own.
  pub count-take_first-le :
      (q : MusicalEvent → Bool) → count q (take_first p f c).1.events ≤ count q c.events
  unfolding take_first
  count-take_first-le q = elim (Option-cases (extract p c.events)) [
    | inl z ↦ rw (z, take_first) (omega arith)
    | inr ((e, rest), z) ↦ rw (z, take_first) (omega (arith, count-extract q p c.events z))
  ]

  pub count-take_first_self : count p c.events ≤ 1 → count p (take_first p f c).1.events ≡ 0
  unfolding take_first
  count-take_first_self h = elim (Option-cases (extract p c.events)) [
    | inl z ↦ rw (z, take_first) (count_none p c.events (extract-none p c.events z))
    | inr ((e, rest), z) ↦
        rw (z, take_first)
          (omega
            (arith, count-extract p p c.events z, ap one_if (extract-some p c.events z).passes))
  ]

shown-number_event :
    (t k : ℕ) (c : MusicalClip) (e : MusicalEvent) → shown t k (number_event c e).0 ≡ shown t k e
unfolding number_event
shown-number_event t k c e = ground arith

-- Adding an event shows it in its cell, and changes no other.
pub cell-add_event :
    (t k : ℕ) (c : MusicalClip) (e : MusicalEvent)
    → cell t k (add_event c e) ≡ one_if (shown t k e) + cell t k c
cell-add_event t k c e =
    ap (count (shown t k)) (add_event-events c e)
    ∙ count-insert_at (shown t k) c.events _ (number_event c e).0
    ∙ ap (λ b. one_if b + cell t k c) (shown-number_event t k c e)

-- The removals that the edits make: none shows more anywhere.
module _ (q : MusicalEvent → Bool) (c : MusicalClip) (t k : ℕ) where
  pub count-remove_chord_at-le : count q (remove_chord_at c t k).1.events ≤ count q c.events
  unfolding remove_chord_at
  count-remove_chord_at-le = count-take_first-le (chord_at t k) removed_chord c q

  pub count-remove_note_at-le : count q (remove_note_at c t k).1.events ≤ count q c.events
  unfolding remove_note_at
  count-remove_note_at-le = count-take_first-le (note_at t k) removed_note c q

module _ (c : MusicalClip) (t k : ℕ) (unique : cell t k c ≤ 1) where
  chords-remove_chord_at : count (chord_at t k) (remove_chord_at c t k).1.events ≡ 0
  unfolding remove_chord_at
  chords-remove_chord_at =
      count-take_first_self (chord_at t k) removed_chord c
        (omega (arith, cell_parts t k c.events, unique))

  notes-remove_note_at : count (note_at t k) (remove_note_at c t k).1.events ≡ 0
  unfolding remove_note_at
  notes-remove_note_at =
      count-take_first_self (note_at t k) removed_note c
        (omega (arith, cell_parts t k c.events, unique))

-- Where a cell shows one event at most, taking out its chord and then its note leaves it empty.
pub cell_cleared :
    (c : MusicalClip) (t k : ℕ)
    → cell t k c ≤ 1
    → cell t k (remove_note_at (remove_chord_at c t k).1 t k).1 ≡ 0
cell_cleared c t k unique = omega (
  arith,
  cell_parts t k c'.events,
  chords-remove_chord_at c t k unique,
  count-remove_note_at-le (chord_at t k) c1 t k,
  notes-remove_note_at c1 t k (omega (arith, unique, count-remove_chord_at-le (shown t k) c t k)),
)
  where
    c1 : MusicalClip
    c1 = (remove_chord_at c t k).1

    c' : MusicalClip
    c' = (remove_note_at c1 t k).1

-- From a cell that shows nothing there is nothing to take out.
pub cell_empty :
    (c : MusicalClip) (t k : ℕ)
    → cell t k c ≡ 0
    → (remove_note_at (remove_chord_at c t k).1 t k).1 ≡ c
unfolding remove_note_at remove_chord_at
cell_empty c t k h =
    rw (absent (chord_at t k) removed_chord (omega (arith, cell_parts t k c.events, h))) (
      ap (λ r. r.1) (absent (note_at t k) removed_note (omega (arith, cell_parts t k c.events, h))))
  where
    absent :
        {R : Type 0} (p : MusicalEvent → Bool) (f : MusicalEvent → R)
        → count p c.events ≡ 0
        → take_first p f c ≡ (none, c)
    absent p f z = rw (extract_absent p c.events (none_of_count p c.events z), take_first)

note_at-number_event :
    (t k : ℕ) (c : MusicalClip) (e : MusicalEvent)
    → note_at t k (number_event c e).0 ≡ note_at t k e
unfolding number_event
note_at-number_event t k c e = ground arith

pub number_event_id :
    (c : MusicalClip) (e : MusicalEvent) → (m : ℕ) × ((number_event c e).0 ≡ with_note_id e m)
unfolding number_event
number_event_id c e = elim (Bool-cases (is_note e.type)) [
  | inr other ↦ (e.payload.note.note_id, rw (other, number_event) refl)
  | inl note ↦ elim (Bool-cases (e.payload.note.note_id == 0)) [
    | inl new ↦ ((allocate_note_id c none).0, rw (note, new, number_event) refl)
    | inr old ↦ (e.payload.note.note_id, rw (note, old, number_event) refl)
  ]
]

-- An event that is added is there, but for its id.
pub add_event_id :
    (c : MusicalClip) (e : MusicalEvent) → (m : ℕ) × Memᴰ (with_note_id e m) (add_event c e).events
add_event_id c e = (
  (number_event_id c e).0,
  subst (λ es. Memᴰ (with_note_id e (number_event_id c e).0) es) (sym (add_event-events c e))
      (subst (λ x. Memᴰ x (place c.events (number_event c e).0)) (number_event_id c e).1
        (inserted c.events (lower_bound tick c.events (tick (number_event c e).0))
          (number_event c e).0)),
)
  where
    inserted : (xs : List MusicalEvent) (i : ℕ) (x : MusicalEvent) → Memᴰ x (insert_at xs i x)
    inserted xs zero x = Memᴰ.head refl
    inserted [] (suc i) x = Memᴰ.head refl
    inserted (y ∷ xs) (suc i) x = Memᴰ.tail (inserted xs i x)

-- Numbering sets the id of a note and nothing else.
pub removed_note-number_event :
    (c : MusicalClip) (e : MusicalEvent)
    → removed_note (number_event c e).0
      ≡ record (removed_note e) { note_id = (number_event c e).0.payload.note.note_id }
unfolding number_event
removed_note-number_event c e = ground arith

-- The notes of an empty cell.
pub notes_of_empty : (c : MusicalClip) (t k : ℕ) → cell t k c ≡ 0 → count (note_at t k) c.events ≡ 0
notes_of_empty c t k h = omega (arith, cell_parts t k c.events, h)

-- A note that was just placed in a cell without notes is the one that is found there.
pub remove_note_at-add_event :
    (c : MusicalClip) (e : MusicalEvent) (t k : ℕ)
    → count (note_at t k) c.events ≡ 0
    → note_at t k e ≡ true
    → ((remove_note_at (add_event c e) t k).0 ≡ some (removed_note (number_event c e).0))
      × ((remove_note_at (add_event c e) t k).1.events ≡ c.events)
unfolding remove_note_at
remove_note_at-add_event c e t k z hit = rw (found, take_first) (refl, refl)
  where
    found : extract (note_at t k) (add_event c e).events ≡ some ((number_event c e).0, c.events)
    found =
        ap (extract (note_at t k)) (add_event-events c e)
        ∙ extract-insert_at (note_at t k) c.events _ (number_event c e).0
            (none_of_count (note_at t k) c.events z) (note_at-number_event t k c e ∙ hit)
