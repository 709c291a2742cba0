-- ===== src/Engine/Clips.antt =====
-- The edits of the engine keep a clip in order, and one note or chord to a cell.
use unidaw.Base.{
  ℕ, ◌%◌, ◌≤◌, ◌≡◌, ap, subst, sym, subst₂, Bool, true, ◌&&◌, ◌==◌, Option, inl, inr, arith,
  Bool-cases, Option-cases, IsSorted,
}
use unidaw.Base.Count.{one_if}
use unidaw.Event.{ChordPayload, tick}
use unidaw.Clip.{
  MusicalClip, removed_chord, chord_of_id, add_event, allocate_note_id, remove_note_at,
  remove_chord_at, remove_chord_by_id,
}
use unidaw.Clip.Order.{Op, step, Sorted, step-Sorted, add_event-Sorted, allocate-events}
use unidaw.Clip.Cells.{
  shown, cell, CellsUnique, cell-add_event, cell_cleared, count-remove_chord_at-le,
  count-remove_note_at-le, count-take_first-le,
}
use unidaw.Edit.{clear_cell, add_note_to_clip, remove_note_from_clip}
use unidaw.Edit.Cells.{add_note_to_clip-CellsUnique}
use unidaw.Engine.Notes.{chord_event, place_chord}

-- In the order of the ticks, and one note or chord to a cell.
abbrev pub IsTidy : MusicalClip → Type 0
IsTidy c = Sorted c × CellsUnique c

module _ (c : MusicalClip) (t k : ℕ) (h : IsTidy c) where
  pub remove_note_at-IsTidy : IsTidy (remove_note_at c t k).1
  unfolding step
  remove_note_at-IsTidy = (
    step-Sorted c (Op.note_at t k) h.0,
    λ a b. omega (arith, count-remove_note_at-le (shown a b) c t k, h.1 a b),
  )

  pub remove_chord_at-IsTidy : IsTidy (remove_chord_at c t k).1
  unfolding step
  remove_chord_at-IsTidy = (
    step-Sorted c (Op.chord_at t k) h.0,
    λ a b. omega (arith, count-remove_chord_at-le (shown a b) c t k, h.1 a b),
  )

pub remove_chord_by_id-IsTidy :
    (c : MusicalClip) (id : ℕ) → IsTidy c → IsTidy (remove_chord_by_id c id).1
unfolding step remove_chord_by_id
remove_chord_by_id-IsTidy c id h = (
  step-Sorted c (Op.chord_by_id id) h.0,
  λ a b. omega (arith, count-take_first-le (chord_of_id id) removed_chord c (shown a b), h.1 a b),
)

clear_cell-Sorted : (c : MusicalClip) (t d v k : ℕ) → Sorted c → Sorted (clear_cell c t d v k)
unfolding clear_cell step
clear_cell-Sorted c t d v k h = elim (Bool-cases (v == 0 && d == 0)) [
  | inl off ↦ rw (off, clear_cell) (step-Sorted _ (Op.offs_in_span t k) both)
  | inr on ↦ rw (on, clear_cell) both
]
  where
    both : Sorted (remove_note_at (remove_chord_at c t k).1 t k).1
    both = step-Sorted _ (Op.note_at t k) (step-Sorted c (Op.chord_at t k) h)

pub add_note_to_clip-IsTidy :
    (c : MusicalClip) (track t d p v flags version : ℕ) (rec : Bool) (id : Option ℕ)
    → IsTidy c
    → IsTidy (add_note_to_clip c track t d p v flags version rec id).1
unfolding add_note_to_clip
add_note_to_clip-IsTidy c track t d p v flags version rec id h = (
  add_event-Sorted (allocate_note_id cleared id).1 _ (
      subst (IsSorted tick) (sym (allocate-events cleared id))
        (clear_cell-Sorted c t d v (flags % 256) h.0)),
  (add_note_to_clip-CellsUnique c track t d p v flags version rec id h.1).0,
)
  where
    cleared : MusicalClip
    cleared = clear_cell c t d v (flags % 256)

pub remove_note_from_clip-IsTidy :
    (c : MusicalClip) (track t p flags version : ℕ) (rec : Bool)
    → IsTidy c
    → IsTidy (remove_note_from_clip c track t p flags version rec).1
unfolding remove_note_from_clip
remove_note_from_clip-IsTidy c track t p flags version rec h =
    elim (Option-cases (remove_note_at c t (flags % 256)).0) [
      | inl z ↦ rw (z, remove_note_from_clip) (remove_note_at-IsTidy c t (flags % 256) h)
      | inr (r, z) ↦ rw (z, remove_note_from_clip) (remove_note_at-IsTidy c t (flags % 256) h)
    ]

module _ (c : MusicalClip) (t : ℕ) (chord : ChordPayload) (h : IsTidy c) where
  abbrev bare : MusicalClip
  bare = (remove_note_at (remove_chord_at c t chord.column).1 t chord.column).1

  bare-IsTidy : IsTidy bare
  bare-IsTidy = remove_note_at-IsTidy _ t chord.column (remove_chord_at-IsTidy c t chord.column h)

  shown_where : (a b : ℕ) → shown a b (chord_event t chord) ≡ true → (t ≡ a) × (chord.column ≡ b)
  shown_where a b hit = ground arith

  pub place_chord-IsTidy : IsTidy (place_chord c t chord)
  unfolding place_chord
  place_chord-IsTidy = (
    add_event-Sorted bare (chord_event t chord) bare-IsTidy.0,
    λ a b. elim (Bool-cases (shown a b (chord_event t chord))) [
      | inl hit ↦
          let (et, ek) = shown_where a b hit in
          subst₂ (λ x y. cell x y (add_event bare (chord_event t chord)) ≤ 1) et ek
            (omega (
              arith,
              cell-add_event t chord.column bare (chord_event t chord),
              one_if-le (shown t chord.column (chord_event t chord)),
              cell_cleared c t chord.column (h.1 t chord.column),
            ))
      | inr miss ↦
          omega (
            arith,
            cell-add_event a b bare (chord_event t chord),
            ap one_if miss,
            bare-IsTidy.1 a b,
          )
    ],
  )
    where
      one_if-le : (b : Bool) → one_if b ≤ 1
      one_if-le b = ground arith
