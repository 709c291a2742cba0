-- ===== src/Clip/Tests.antt =====
-- The clip on a few events of two columns.
use unidaw.Base.{ℕ, ◌≡◌, refl, List, [], ◌∷◌, arith, IsSorted, remove_if}
use unidaw.Event.{MusicalEventType, MusicalEvent, no_note, no_param, no_chord, tick}
use unidaw.Clip.{MusicalClip, empty, add_event}
use unidaw.Clip.Order.{Op, run, run-Sorted}
use unidaw.Base.Ranges.{select}
use unidaw.Clip.Rows.{new_pattern_view, row_events, row_events_lem}
use unidaw.Clip.Span.{remove_note_offs_in_span, remove_note_offs_after}
use unidaw.Clip.Span.Needless.{needless, remove_note_offs_in_span_lem}

abbrev note_event : (t column velocity id : ℕ) → MusicalEvent
note_event t column velocity id = record {
  nanotick_offset = t;
  type = MusicalEventType.note;
  payload = record {
    note = record no_note { column = column; velocity = velocity; note_id = id };
    param = no_param;
    chord = no_chord;
  };
}

abbrev ops : List Op
ops =
    Op.add (note_event 40 0 90 0)
    ∷ Op.add (note_event 10 0 80 0)
    ∷ Op.add (note_event 20 1 70 7)
    ∷ []

abbrev clip : MusicalClip
clip = record {
  events = note_event 10 0 80 2 ∷ note_event 20 1 70 7 ∷ note_event 40 0 90 1 ∷ [];
  next_note_id = 8;
}

run-ops : run empty ops ≡ clip
unfolding run add_event
run-ops = refl

run-Sorted_example : IsSorted tick (run empty ops).events
run-Sorted_example = run-Sorted ops

-- Note-offs of column 0 at 5, 20 and 50 between a note-on at 10 and one at 40.
abbrev offs : MusicalClip
offs = record {
  events =
      note_event 5 0 0 3
      ∷ note_event 10 0 80 1
      ∷ note_event 20 0 0 4
      ∷ note_event 40 0 90 2
      ∷ note_event 50 0 0 5
      ∷ [];
  next_note_id = 6;
}

offs_at_25 :
    (remove_note_offs_in_span offs 25 0).events
    ≡ note_event 5 0 0 3 ∷ note_event 10 0 80 1 ∷ note_event 40 0 90 2 ∷ note_event 50 0 0 5 ∷ []
unfolding remove_note_offs_in_span
offs_at_25 = refl

offs_after_11 :
    (remove_note_offs_after offs 11 0).events
    ≡ note_event 5 0 0 3 ∷ note_event 10 0 80 1 ∷ note_event 40 0 90 2 ∷ note_event 50 0 0 5 ∷ []
unfolding remove_note_offs_after
offs_after_11 = refl

remove_note_offs_in_span_lem_example :
    remove_note_offs_in_span offs 25 0
    ≡ record offs { events = remove_if (needless 25 0 offs.events) offs.events }
remove_note_offs_in_span_lem_example = remove_note_offs_in_span_lem offs 25 0

row_events_lem_example : row_events (new_pattern_view clip 48000) 2 ≡ select tick 0 40 clip.events
row_events_lem_example = row_events_lem clip 48000 2 (omega arith) (omega arith) (omega arith)
