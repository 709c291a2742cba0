-- ===== src/Clip/Span/Silence.antt =====
-- What `removeNoteOffsInSpan` leaves: no note-off reaches across a place where nothing starts.
use unidaw.Base.{ℕ, Bool, ◌&&◌, ltb, leb, if◌then◌else◌}
use unidaw.Event.{MusicalEvent, tick}
use unidaw.Clip.Span.{Span, is_boundary, widen_next, widen_prev}

module _ (nanotick column : ℕ) where
  -- A start of a sound after `nanotick` and not after `x`; before `nanotick` and not before `x`.
  abbrev pub starts_until : ℕ → MusicalEvent → Bool
  starts_until x b = is_boundary column b && (ltb nanotick (tick b) && leb (tick b) x)

  abbrev pub starts_since : ℕ → MusicalEvent → Bool
  starts_since x b = is_boundary column b && (ltb (tick b) nanotick && leb x (tick b))

  abbrev pub lower : Span → ℕ
  lower s = if s.has_prev then s.prev else 0

  abbrev pub widen : MusicalEvent → Span → Span
  widen e s =
      if is_boundary column e
      then widen_next nanotick (tick e) (widen_prev nanotick (tick e) s)
      else s
