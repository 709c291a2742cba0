-- ===== src/Clip/Span.antt =====
-- `removeNoteOffsAfter` and `removeNoteOffsInSpan` of `MusicalClip`: a note-off is a note of no
-- velocity and no duration, and lasts until the next event of its column.
pub mod Silence
pub mod Needless
use unidaw.Base.{
  ℕ, ◌<◌, ◌≤◌, ◌≡◌, Bool, true, false, ◌&&◌, ◌||◌, not, List, [], ◌∷◌, Option, none, some, ltb, leb,
  ◌==◌, if◌then◌else◌, remove_if, arith,
}
use unidaw.Base.Words.{u64_max}
use unidaw.Event.{MusicalEvent, is_note, is_chord, tick, note_column, chord_column}
use unidaw.Clip.{MusicalClip}

abbrev velocity : MusicalEvent → ℕ
velocity e = e.payload.note.velocity

-- The test in the loop of `removeNoteOffsAfter` that does not `continue`.
abbrev pub note_on_after : ℕ → ℕ → MusicalEvent → Bool
note_on_after nanotick column e =
    is_note e.type && note_column e == column && ltb nanotick (tick e) && ltb 0 (velocity e)

-- `nextNoteOn`, from the first that passes.
pub next_note_on : ℕ → ℕ → List MusicalEvent → ℕ
next_note_on nanotick column [] = u64_max
next_note_on nanotick column (e ∷ es) =
    if note_on_after nanotick column e then tick e else next_note_on nanotick column es

abbrev pub note_off : ℕ → MusicalEvent → Bool
note_off column e =
    is_note e.type && note_column e == column && velocity e == 0 && e.payload.note.duration == 0

unfoldable pub remove_note_offs_after : MusicalClip → ℕ → ℕ → MusicalClip
unfolding next_note_on
remove_note_offs_after c nanotick column =
    let next_on = next_note_on nanotick column c.events in
    record c {
      events =
          remove_if (λ e. note_off column e && ltb nanotick (tick e) && ltb (tick e) next_on)
            c.events;
    }

-- Where a sound of the column starts: a note-on or a chord.
abbrev pub is_boundary : ℕ → MusicalEvent → Bool
is_boundary column e =
    if is_note e.type
    then note_column e == column && ltb 0 (velocity e)
    else is_chord e.type && chord_column e == column

-- The loop's variables: `prevBoundary` with `hasPrev`, and `nextBoundary`.
pub record Span : Type 0 where
  pub prev : ℕ
  pub has_prev : Bool
  pub next : ℕ

abbrev widen_prev : ℕ → ℕ → Span → Span
widen_prev nanotick t s =
    if ltb t nanotick && (not s.has_prev || ltb s.prev t)
    then record s { prev = t; has_prev = true }
    else s

abbrev widen_next : ℕ → ℕ → Span → Span
widen_next nanotick t s = if ltb nanotick t && ltb t s.next then record s { next = t } else s

pub scan : ℕ → ℕ → Span → List MusicalEvent → Span
scan nanotick column s [] = s
scan nanotick column s (e ∷ es) =
    scan nanotick column
      (if is_boundary column e
        then widen_next nanotick (tick e) (widen_prev nanotick (tick e) s)
        else s)
      es

abbrev no_span : Span
no_span = record { prev = 0; has_prev = false; next = u64_max }

abbrev pub in_span : ℕ → ℕ → Span → MusicalEvent → Bool
in_span nanotick column s e =
    note_off column e
    && not (tick e == nanotick)
    && ltb (if s.has_prev then s.prev else 0) (tick e)
    && ltb (tick e) s.next

unfoldable pub remove_note_offs_in_span : MusicalClip → ℕ → ℕ → MusicalClip
unfolding scan
remove_note_offs_in_span c nanotick column = record c {
  events = remove_if (in_span nanotick column (scan nanotick column no_span c.events)) c.events;
}
