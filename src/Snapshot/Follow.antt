-- ===== src/Snapshot/Follow.antt =====
-- The pages of a window, followed to the end.
use unidaw.Base.{
  ℕ, zero, suc, ◌+◌, ◌%◌, ◌^◌, ◌≤◌, ◌<◌, ◌≡◌, ◌⊎◌, refl, sym, ap, ap₂, subst, ◌∙◌, Bool, true,
  false, List, [], ◌++◌, some, inl, inr, leb, if◌then◌else◌, length, get_elem?, lower_bound, drop,
  IsSorted, arith, Bool-cases, Option-cases,
}
use mathlib.Core.List.{append-nil}
use unidaw.Event.{MusicalEvent, tick}
use unidaw.Clip.{MusicalClip, get_events_in_range}
use unidaw.Snapshot.{
  ClipWindowRequest, UiClipNote, UiClipChord, Filled, ends_at, start_index, scan,
  build_ui_clip_window_snapshot, ui_max_clip_notes, ui_max_clip_chords,
}
use unidaw.Snapshot.Ends.{
  drop-drop, drop_cons, in_range, length-drop, from_bound, window_over, start_at, lower_bound-le,
  start_index-le, start_zero,
}
use unidaw.Snapshot.Pages.{
  notes_of, chords_of, window, scan-fits, scan-notes, scan-chords, scan-taken-le, scan_moves,
}

-- What a UI gathers that asks for at most so many pages, until one is complete: the notes, the
-- chords, and whether the last page was complete.
pub follow : ℕ → MusicalClip → ClipWindowRequest → List UiClipNote × List UiClipChord × Bool
follow zero clip request = ([], [], false)
follow (suc pages) clip request =
    let (result, page) = build_ui_clip_window_snapshot clip request 0 in
    let rest =
      follow pages clip (record request { cursor_event_index = result.next_event_index }) in
    if result.complete
    then (page.notes, page.chords, true)
    else (page.notes ++ rest.0, page.chords ++ rest.1, rest.2)

module _ (clip : MusicalClip) (request : ClipWindowRequest) where
  abbrev events : List MusicalEvent
  events = clip.events

  abbrev limit : ℕ
  limit = request.window_end_nanotick

  abbrev at : ℕ → ClipWindowRequest
  at c = record request { cursor_event_index = c }

  abbrev taken : ℕ → ℕ
  taken i = (scan limit 0 0 (drop i events)).taken

  -- A page that does not end the window moves on.
  moves :
      (i : ℕ)
      → ends_at limit (get_elem? events (i + taken i)) ≡ false
      → (1 ≤ taken i) × (i + taken i < length events)
  moves i h = elim (Option-cases (get_elem? events (i + taken i))) [
    | inl z ↦ cc (sym h ∙ ap (ends_at limit) z)
    | inr (e, z) ↦ (first e z, in_range (i + taken i) events z)
  ]
    where
      early : (t limit : ℕ) → leb limit t ≡ false → t < limit
      early t limit h = ground arith

      some_or_none : (n : ℕ) → (n ≡ 0) ⊎ (1 ≤ n)
      some_or_none zero = inl refl
      some_or_none (suc n) = inr (omega arith)

      first : (e : MusicalEvent) → get_elem? events (i + taken i) ≡ some e → 1 ≤ taken i
      first e z = elim (some_or_none (taken i)) [
        | inr one ↦ one
        | inl none_taken ↦
            let same : i + taken i ≡ i = omega (arith, none_taken) in
            let here = subst (λ j. get_elem? events j ≡ some e) same z in
            subst (λ xs. 1 ≤ (scan limit 0 0 xs).taken) (sym (drop_cons i events here))
              (scan_moves limit e (drop (suc i) events)
                (early (tick e) limit (sym (ap (ends_at limit) z) ∙ h)))
      ]

  -- The next page starts where this one ended.
  next_start :
      (i : ℕ)
      → IsSorted tick events
      → lower_bound tick events request.window_start_nanotick ≤ i
      → length events < 2 ^ 32
      → 1 ≤ taken i
      → i + taken i < length events
      → start_index events (at ((i + taken i) % 2 ^ 32)) ≡ i + taken i
  unfolding start_index
  next_start i s lb small one lt =
      start_at events (at ((i + taken i) % 2 ^ 32)) (i + taken i) (omega arith) (omega (arith, one))
        lt (from_bound request.window_start_nanotick (i + taken i) events s (omega (arith, lb)))

  abbrev page : ℕ → Filled
  page i = scan limit 0 0 (drop i events)

  -- A page, and what is left after it.
  notes_split :
      (i : ℕ)
      → notes_of (window limit (drop i events))
        ≡ (page i).notes ++ notes_of (window limit (drop (i + taken i) events))
  notes_split i =
      scan-notes limit 0 0 (drop i events)
      ∙ ap (λ xs. (page i).notes ++ notes_of (window limit xs)) (drop-drop i (taken i) events)

  chords_split :
      (i : ℕ)
      → chords_of (window limit (drop i events))
        ≡ (page i).chords ++ chords_of (window limit (drop (i + taken i) events))
  chords_split i =
      scan-chords limit 0 0 (drop i events)
      ∙ ap (λ xs. (page i).chords ++ chords_of (window limit xs)) (drop-drop i (taken i) events)

  -- From a cursor on, with a page for every event that is left, all of the window is gathered.
  follow_from :
      (pages i c : ℕ)
      → IsSorted tick events
      → length events < 2 ^ 32
      → start_index events (at c) ≡ i
      → lower_bound tick events request.window_start_nanotick ≤ i
      → length events < i + pages
      → i ≤ length events
      → follow pages clip (at c)
        ≡ (notes_of (window limit (drop i events)), chords_of (window limit (drop i events)), true)
  unfolding follow build_ui_clip_window_snapshot
  follow_from zero i c s small h lb enough le = absurd (omega arith)
  follow_from (suc pages) i c s small h lb enough le =
      elim (Bool-cases (ends_at limit (get_elem? events (i + taken i)))) [
        | inl y ↦
            let over = window_over limit (i + taken i) events y in
            rw (h, y, follow)
              (ap₂ (λ a b. (a, b, true))
                (sym (
                  notes_split i
                  ∙ ap (λ xs. (page i).notes ++ notes_of xs) over
                  ∙ append-nil (page i).notes))
                (sym (
                  chords_split i
                  ∙ ap (λ xs. (page i).chords ++ chords_of xs) over
                  ∙ append-nil (page i).chords)))
        | inr n ↦
            let m = moves i n in
            let rest =
              follow_from pages (i + taken i) ((i + taken i) % 2 ^ 32) s small
                (next_start i s lb small m.0 m.1) (omega (arith, lb)) (omega (arith, enough, m.0))
                (omega (arith, m.1)) in
            rw (h, n, follow)
              (ap (λ r. ((page i).notes ++ r.0, (page i).chords ++ r.1, r.2)) rest
                ∙ ap₂ (λ a b. (a, b, true)) (sym (notes_split i)) (sym (chords_split i)))
      ]

-- A page fits the arrays of the snapshot, whose counts are those of its entries, and the next index
-- is one past events of the clip.
pub page_fits :
    (clip : MusicalClip) (request : ClipWindowRequest) (version : ℕ)
    → let (result, page) = build_ui_clip_window_snapshot clip request version in
      (page.note_count ≤ ui_max_clip_notes)
      × (page.chord_count ≤ ui_max_clip_chords)
      × (result.next_event_index ≤ length clip.events)
      × (length page.notes ≡ page.note_count)
      × (length page.chords ≡ page.chord_count)
unfolding build_ui_clip_window_snapshot
page_fits clip request version =
    let i = start_index clip.events request in
    let f =
      scan-fits request.window_end_nanotick 0 0 (drop i clip.events) (omega arith) (omega arith) in
    let taken = scan-taken-le request.window_end_nanotick 0 0 (drop i clip.events) in
    let left = length-drop i clip.events (start_index-le clip.events request) in
    (omega (arith, f.0), omega (arith, f.1), omega (arith, taken, left), refl, refl)

-- A UI that asks for a window from cursor 0 and then from where each page ended has, after one page
-- more than the clip has events at most, a complete page, and by then exactly the notes and the
-- chords that start in the window, in order. The clip is in order and has less than 2^32 events.
pub follow_gathers :
    (clip : MusicalClip) (request : ClipWindowRequest)
    → IsSorted tick clip.events
    → length clip.events < 2 ^ 32
    → let found =
        get_events_in_range clip request.window_start_nanotick request.window_end_nanotick in
      follow (suc (length clip.events)) clip (record request { cursor_event_index = 0 })
      ≡ (notes_of found, chords_of found, true)
unfolding get_events_in_range
follow_gathers clip request s small =
    follow_from clip request (suc (length clip.events))
      (lower_bound tick clip.events request.window_start_nanotick) 0 s small from_start
      (omega arith) (omega arith) (lower_bound-le clip.events request.window_start_nanotick)
  where
    from_start :
        start_index clip.events (record request { cursor_event_index = 0 })
        ≡ lower_bound tick clip.events request.window_start_nanotick
    from_start = start_zero clip.events (record request { cursor_event_index = 0 }) refl
