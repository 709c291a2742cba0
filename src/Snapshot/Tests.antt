-- ===== src/Snapshot/Tests.antt =====
-- Windows of a small clip.
use unidaw.Base.{◌≤◌, ◌≡◌, true, [], ◌∷◌, length, arith}
use unidaw.Clip.{MusicalClip, get_events_in_range}
use unidaw.Edit.{note_event}
use unidaw.Snapshot.{
  ClipWindowRequest, build_ui_clip_window_snapshot, ui_max_clip_notes, ui_max_clip_chords,
}
use unidaw.Snapshot.Pages.{notes_of, chords_of}
use unidaw.Snapshot.Follow.{follow, follow_gathers, page_fits}

abbrev clip : MusicalClip
clip = record {
  events = note_event 10 5 60 80 0 1 ∷ note_event 20 5 62 80 0 2 ∷ note_event 90 5 64 80 0 3 ∷ [];
  next_note_id = 4;
}

abbrev request : ClipWindowRequest
request = record {
  track_id = 0;
  request_id = 1;
  cursor_event_index = 0;
  window_start_nanotick = 15;
  window_end_nanotick = 50;
}

page_fits_example :
    let (result, page) = build_ui_clip_window_snapshot clip request 1 in
    (page.note_count ≤ ui_max_clip_notes)
    × (page.chord_count ≤ ui_max_clip_chords)
    × (result.next_event_index ≤ 3)
    × (length page.notes ≡ page.note_count)
    × (length page.chords ≡ page.chord_count)
page_fits_example = page_fits clip request 1

follow_gathers_example :
    follow 4 clip request
    ≡ (notes_of (get_events_in_range clip 15 50), chords_of (get_events_in_range clip 15 50), true)
follow_gathers_example =
    follow_gathers clip request ((omega arith, (omega arith, tt)), ((omega arith, tt), (tt, tt)))
      (omega arith)
