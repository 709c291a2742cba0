-- ===== src/Edit/Undo.antt =====
-- The entry that an edit records undoes it.
use native.Mathlib.Nat.{mod-mod}
use unidaw.Base.{ℕ, ◌%◌, ◌≤◌, ◌≡◌, refl, ap, ◌∙◌, true, false, ◌&&◌, ◌==◌, Option, some, arith}
use unidaw.Base.Words.{add32}
use unidaw.Base.Count.{count}
use unidaw.Event.{MusicalEvent}
use unidaw.Clip.{
  MusicalClip, RemovedNote, note_at, removed_note, number_event, allocate_note_id, add_event,
  remove_note_at,
}
use unidaw.Clip.Order.{allocate-events}
use unidaw.Clip.Cells.{
  cell, cell_empty, notes_of_empty, removed_note-number_event, remove_note_at-add_event,
}
use unidaw.Edit.{
  removal, UndoType, UndoEntry, ClipEditResult, clear_cell, note_event, note_undo, add_note_to_clip,
  remove_note_from_clip,
}
use unidaw.Edit.Cells.{clear_cell-empty}

module _ (c : MusicalClip) (track t d p v flags version : ℕ) (id : Option ℕ) where
  abbrev column : ℕ
  column = flags % 256

  abbrev cleared : MusicalClip
  cleared = clear_cell c t d v column

  abbrev numbered : ℕ × MusicalClip
  numbered = allocate_note_id cleared id

  abbrev the_note : MusicalEvent
  the_note = note_event t d p v column numbered.0

  found :
      cell t column c ≤ 1
      → ((remove_note_at (add_event numbered.1 the_note) t column).0
          ≡ some (removed_note (number_event numbered.1 the_note).0))
        × ((remove_note_at (add_event numbered.1 the_note) t column).1.events ≡ cleared.events)
  found u = (r.0, r.1 ∙ allocate-events cleared id)
    where
      none_left : count (note_at t column) numbered.1.events ≡ 0
      none_left =
          ap (count (note_at t column)) (allocate-events cleared id)
          ∙ notes_of_empty cleared t column (clear_cell-empty c t d v column u)

      r :
          ((remove_note_at (add_event numbered.1 the_note) t column).0
            ≡ some (removed_note (number_event numbered.1 the_note).0))
          × ((remove_note_at (add_event numbered.1 the_note) t column).1.events ≡ numbered.1.events)
      r = remove_note_at-add_event numbered.1 the_note t column none_left (ground arith)

-- An undo entry that describes a note.
pub record Describes (type : UndoType) (track t d p v k : ℕ) (u : UndoEntry) : Type 0 where
  pub same_type : u.type ≡ type
  pub same_track : u.track_id ≡ track
  pub same_tick : u.nanotick ≡ t
  pub same_duration : u.duration ≡ d
  pub same_pitch : u.pitch ≡ p
  pub same_velocity : u.velocity ≡ v
  pub same_column : u.flags ≡ k

-- An edit with a result whose undo entry describes the note.
abbrev pub Undoes : UndoType → (track t d p v k : ℕ) → Option ClipEditResult → Type 0
Undoes type track t d p v k r =
    (e : ClipEditResult) × (u : UndoEntry) × (r ≡ some e)
    × (e.undo ≡ some u)
    × Describes type track t d p v k u

note_undo-Describes :
    (type : UndoType) (track t d p v n k : ℕ)
    → Describes type track t d p v k (note_undo type track t d p v n k)
note_undo-Describes type track t d p v n k = record {
  same_type = refl;
  same_track = refl;
  same_tick = refl;
  same_duration = refl;
  same_pitch = refl;
  same_velocity = refl;
  same_column = refl;
}

-- `removeNoteFromClip` where the cell has a note.
remove_found :
    (c : MusicalClip) (track t p flags version : ℕ) {r : RemovedNote}
    → (remove_note_at c t (flags % 256)).0 ≡ some r
    → remove_note_from_clip c track t p flags version true ≡ (
      some (removal r track t (add32 version 1) true),
      (remove_note_at c t (flags % 256)).1,
      add32 version 1,
    )
unfolding remove_note_from_clip
remove_found c track t p flags version h = rw (h, remove_note_from_clip)

clear_empty :
    (c : MusicalClip) (t d v k : ℕ)
    → cell t k c ≡ 0
    → (v == 0 && d == 0) ≡ false
    → clear_cell c t d v k ≡ c
unfolding clear_cell
clear_empty c t d v k z on = rw on (cell_empty c t k z)

-- A note that `addNoteToClip` adds to an empty cell, and that is no note-off, is taken out again by
-- the `removeNoteFromClip` call that its undo entry asks for: the events are those of before. The
-- removal records an entry that describes the same note, for redo.
pub undo_of_add :
    (c : MusicalClip) (track t d p v flags version : ℕ) (id : Option ℕ)
    → cell t (flags % 256) c ≡ 0
    → (v == 0 && d == 0) ≡ false
    → let out = add_note_to_clip c track t d p v flags version true id in
      let back = remove_note_from_clip out.1 track t p (flags % 256) out.2 true in
      Undoes UndoType.remove_note track t d p v (flags % 256) (some out.0)
      × (back.1.events ≡ c.events)
      × Undoes UndoType.add_note track t d p v (flags % 256) back.0
unfolding add_note_to_clip remove_note_from_clip
undo_of_add c track t d p v flags version id empty on = (
  (
    _,
    note_undo UndoType.remove_note track t d p v numbered'.0 k,
    refl,
    refl,
    note_undo-Describes UndoType.remove_note track t d p v numbered'.0 k,
  ),
  ap (λ r. r.1.events) back ∙ hit'.1,
  (
    _,
    note_undo UndoType.add_note track t d p v stored k,
    ap (λ r. r.0) back,
    ap (λ r. (removal r track t (add32 (add32 version 1) 1) true).undo)
        (removed_note-number_event numbered'.1 note'),
    note_undo-Describes UndoType.add_note track t d p v stored k,
  ),
)
  where
    k : ℕ
    k = flags % 256

    numbered' : ℕ × MusicalClip
    numbered' = allocate_note_id (clear_cell c t d v k) id

    note' : MusicalEvent
    note' = note_event t d p v k numbered'.0

    stored : ℕ
    stored = (number_event numbered'.1 note').0.payload.note.note_id

    hit :
        ((remove_note_at (add_event numbered'.1 note') t k).0
          ≡ some (removed_note (number_event numbered'.1 note').0))
        × ((remove_note_at (add_event numbered'.1 note') t k).1.events ≡ c.events)
    hit =
        let f = found c track t d p v flags version id (omega (arith, empty)) in
        (f.0, f.1 ∙ ap (λ r. r.events) (clear_empty c t d v k empty on))

    hit' :
        ((remove_note_at (add_event numbered'.1 note') t (k % 256)).0
          ≡ some (removed_note (number_event numbered'.1 note').0))
        × ((remove_note_at (add_event numbered'.1 note') t (k % 256)).1.events ≡ c.events)
    hit' = rw (mod-mod flags 256) hit

    back :
        remove_note_from_clip (add_event numbered'.1 note') track t p k (add32 version 1) true ≡ (
          some (
              removal
                (removed_note (number_event numbered'.1 note').0)
                track
                t
                (add32 (add32 version 1) 1)
                true),
          (remove_note_at (add_event numbered'.1 note') t (k % 256)).1,
          add32 (add32 version 1) 1,
        )
    back = remove_found (add_event numbered'.1 note') track t p k (add32 version 1) hit'.0
