-- ===== src/Edit/Cells.antt =====
-- The edits keep the tracker grid: one note or chord to a cell.
use mathlib.Core.List.{Memᴰ}
use unidaw.Base.{
  if◌then◌else◌, false, ℕ, ◌+◌, ◌%◌, ◌≤◌, ◌≡◌, ap, subst₂, ◌∙◌, Bool, true, ◌&&◌, ◌==◌, Option, inl,
  inr, arith, Bool-cases,
}
use unidaw.Base.Count.{one_if, count, count-remove_if-le}
use unidaw.Event.{MusicalEvent}
use unidaw.Clip.{MusicalClip, allocate_note_id, remove_note_at, remove_chord_at}
use unidaw.Clip.Span.{remove_note_offs_in_span}
use unidaw.Clip.Cells.{
  add_event_id, shown, cell, CellsUnique, cell-add_event, cell_cleared, count-remove_chord_at-le,
  count-remove_note_at-le,
}
use unidaw.Clip.Order.{allocate-events}
use unidaw.Edit.{clear_cell, note_event, add_note_to_clip}

pub offs_in_span-le :
    (q : MusicalEvent → Bool) (c : MusicalClip) (t k : ℕ)
    → count q (remove_note_offs_in_span c t k).events ≤ count q c.events
unfolding remove_note_offs_in_span
offs_in_span-le q c t k = count-remove_if-le q _ c.events

module _ (c : MusicalClip) (t d v k : ℕ) where
  -- Clearing a cell shows no more anywhere, and nothing there.
  pub clear_cell-le : (a b : ℕ) → cell a b (clear_cell c t d v k) ≤ cell a b c
  unfolding clear_cell
  clear_cell-le a b = elim (Bool-cases (v == 0 && d == 0)) [
    | inl off ↦ rw off (omega (arith, removals, offs_in_span-le (shown a b) c' t k))
    | inr on ↦ rw on removals
  ]
    where
      c' : MusicalClip
      c' = (remove_note_at (remove_chord_at c t k).1 t k).1

      removals : cell a b c' ≤ cell a b c
      removals = omega (
        arith,
        count-remove_chord_at-le (shown a b) c t k,
        count-remove_note_at-le (shown a b) (remove_chord_at c t k).1 t k,
      )

  pub clear_cell-empty : cell t k c ≤ 1 → cell t k (clear_cell c t d v k) ≡ 0
  unfolding clear_cell
  clear_cell-empty u = elim (Bool-cases (v == 0 && d == 0)) [
    | inl off ↦ rw off (omega (arith, cell_cleared c t k u, offs_in_span-le (shown t k) c' t k))
    | inr on ↦ rw on (cell_cleared c t k u)
  ]
    where
      c' : MusicalClip
      c' = (remove_note_at (remove_chord_at c t k).1 t k).1

module _ (c : MusicalClip) (track t d p v flags version : ℕ) (rec : Bool) (id : Option ℕ) where
  after : MusicalClip
  unfolding add_note_to_clip
  after = (add_note_to_clip c track t d p v flags version rec id).1

  cleared : MusicalClip
  cleared = clear_cell c t d v (flags % 256)

  -- The note goes to its cell, on top of what the clearing left.
  cell-after :
      (a b : ℕ)
      → cell a b after
        ≡ one_if (shown a b (note_event t d p v (flags % 256) (allocate_note_id cleared id).0))
          + cell a b cleared
  unfolding after cleared
  cell-after a b =
      cell-add_event a b (allocate_note_id cleared id).1
        (note_event t d p v (flags % 256) (allocate_note_id cleared id).0)
      ∙ ap
          (λ es.
            one_if (shown a b (note_event t d p v (flags % 256) (allocate_note_id cleared id).0))
            + count (shown a b) es)
          (allocate-events cleared id)

  shown_where :
      (a b n : ℕ)
      → shown a b (note_event t d p v (flags % 256) n) ≡ true
      → (t ≡ a) × (flags % 256 ≡ b)
  shown_where a b n h = ground arith

  shown_here : (n : ℕ) → shown t (flags % 256) (note_event t d p v (flags % 256) n) ≡ true
  shown_here n = ground arith

  module _ (unique : CellsUnique c) where
    cell-after_here : cell t (flags % 256) after ≡ 1
    unfolding cleared
    cell-after_here = omega (
      arith,
      cell-after t (flags % 256),
      ap one_if (shown_here (allocate_note_id cleared id).0),
      clear_cell-empty c t d v (flags % 256) (unique t (flags % 256)),
    )

    after-CellsUnique : CellsUnique after
    unfolding cleared
    after-CellsUnique a b =
        elim (Bool-cases
          (shown a b (note_event t d p v (flags % 256) (allocate_note_id cleared id).0))) [
            | inl hit ↦
                let (et, ek) = shown_where a b (allocate_note_id cleared id).0 hit in
                subst₂ (λ x y. cell x y after ≤ 1) et ek (omega (arith, cell-after_here))
            | inr miss ↦ omega (
              arith,
              cell-after a b,
              ap one_if miss,
              clear_cell-le c t d v (flags % 256) a b,
              unique a b,
            )
          ]

    not_here :
        (a b n : ℕ)
        → shown a b (note_event t d p v (flags % 256) n) ≡ false
        → (t == a && flags % 256 == b) ≡ false
    not_here a b n h = ground arith

    elsewhere : (a b : ℕ) → cell a b after ≤ (if t == a && flags % 256 == b then 1 else cell a b c)
    unfolding cleared
    elsewhere a b =
        elim (Bool-cases
          (shown a b (note_event t d p v (flags % 256) (allocate_note_id cleared id).0))) [
            | inl hit ↦
                ground (
                  arith,
                  after-CellsUnique a b,
                  shown_where a b (allocate_note_id cleared id).0 hit,
                )
            | inr miss ↦ rw (not_here a b (allocate_note_id cleared id).0 miss) (
                omega
                  (arith, cell-after a b, ap one_if miss, clear_cell-le c t d v (flags % 256) a b))
          ]

pub add_note_to_clip-CellsUnique :
    (c : MusicalClip) (track t d p v flags version : ℕ) (rec : Bool) (id : Option ℕ)
    → CellsUnique c
    → let out = (add_note_to_clip c track t d p v flags version rec id).1 in
      CellsUnique out
      × (cell t (flags % 256) out ≡ 1)
      × ((m : ℕ) × Memᴰ (note_event t d p v (flags % 256) m) out.events)
      × ((a b : ℕ) → cell a b out ≤ (if t == a && flags % 256 == b then 1 else cell a b c))
unfolding after cleared add_note_to_clip
add_note_to_clip-CellsUnique c track t d p v flags version rec id u = (
  after-CellsUnique c track t d p v flags version rec id u,
  cell-after_here c track t d p v flags version rec id u,
  add_event_id (allocate_note_id (clear_cell c t d v (flags % 256)) id).1
      (note_event t d p v (flags % 256) (allocate_note_id (clear_cell c t d v (flags % 256)) id).0),
  elsewhere c track t d p v flags version rec id u,
)
