-- ===== src/Edit/Tests.antt =====
-- The edits on a clip with one note.
use unidaw.Base.{◌≡◌, refl, true, [], ◌∷◌, none}
use unidaw.Base.Count.{count}
use unidaw.Clip.{MusicalClip}
use unidaw.Edit.{note_event, add_note_to_clip, remove_note_from_clip}
use unidaw.Edit.Undo.{undo_of_add}

abbrev clip : MusicalClip
clip = record { events = note_event 10 0 60 80 0 1 ∷ []; next_note_id = 2 }

undo_of_add_example :
    (remove_note_from_clip
      (add_note_to_clip clip 0 20 5 64 90 1 3 true none).1
      0
      20
      64
      1
      4
      true).1.events
    ≡ clip.events
unfolding add_note_to_clip count
undo_of_add_example = (undo_of_add clip 0 20 5 64 90 1 3 none refl refl).1
