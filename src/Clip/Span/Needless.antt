-- ===== src/Clip/Span/Needless.antt =====
-- Exactly which events `removeNoteOffsInSpan` of apps/musical_structures.h takes out.
use unidaw.Base.{
  ℕ, ◌<◌, ◌≡◌, refl, ap, fun_ext, Bool, false, ◌&&◌, ◌||◌, not, List, [], ◌∷◌, arith, ltb, leb,
  any_of, remove_if, ◌==◌, if◌then◌else◌, Bool-cases, inl, inr,
}
use unidaw.Base.Words.{u64_max}
use unidaw.Event.{
  MusicalEventType, NotePayload, ChordPayload, MusicalEvent, tick, is_note, is_chord,
}
use unidaw.Clip.{MusicalClip}
use unidaw.Clip.Span.{Span, note_off, is_boundary, in_span, scan, no_span, remove_note_offs_in_span}
use unidaw.Clip.Span.Silence.{starts_until, starts_since, lower, widen}

-- A note that only ends the sound of its column: of no velocity and no duration.
abbrev ends : MusicalEventType → ℕ → NotePayload → Bool
ends MusicalEventType.note column n = n.column == column && (n.velocity == 0 && n.duration == 0)
ends _ column n = false

abbrev pub ends_sound : ℕ → MusicalEvent → Bool
ends_sound column e = ends e.type column e.payload.note

-- A start of a sound of the column: a chord, or a note of some velocity.
abbrev starts : MusicalEventType → ℕ → NotePayload → ChordPayload → Bool
starts MusicalEventType.note column n c = n.column == column && ltb 0 n.velocity
starts MusicalEventType.chord column n c = c.column == column
starts _ column n c = false

abbrev pub starts_sound : ℕ → MusicalEvent → Bool
starts_sound column e = starts e.type column e.payload.note e.payload.chord

-- Whether a sound of the column starts after `nanotick` and not after `x`, or before `nanotick` and
-- not before `x`.
abbrev pub sound_until : (nanotick column x : ℕ) → List MusicalEvent → Bool
sound_until nanotick column x =
    any_of (λ b. starts_sound column b && (ltb nanotick (tick b) && leb (tick b) x))

abbrev pub sound_since : (nanotick column x : ℕ) → List MusicalEvent → Bool
sound_since nanotick column x =
    any_of (λ b. starts_sound column b && (ltb (tick b) nanotick && leb x (tick b)))

-- The note-offs that are to go.
abbrev pub needless : (nanotick column : ℕ) → List MusicalEvent → MusicalEvent → Bool
needless nanotick column es e =
    (ends_sound column e && not (tick e == nanotick))
    && ((ltb 0 (tick e) && ltb (tick e) u64_max)
        && not (sound_until nanotick column (tick e) es || sound_since nanotick column (tick e) es))

note_off-eq : (column : ℕ) (e : MusicalEvent) → note_off column e ≡ ends_sound column e
note_off-eq column e = go e.type
  where
    n : NotePayload
    n = e.payload.note

    go :
        (t : MusicalEventType)
        → (is_note t && n.column == column && n.velocity == 0 && n.duration == 0) ≡ ends t column n
    go MusicalEventType.note = ground arith
    go MusicalEventType.param = ground arith
    go MusicalEventType.chord = ground arith
    go MusicalEventType.meta = ground arith

is_boundary-eq : (column : ℕ) (e : MusicalEvent) → is_boundary column e ≡ starts_sound column e
is_boundary-eq column e = go e.type
  where
    n : NotePayload
    n = e.payload.note

    c : ChordPayload
    c = e.payload.chord

    go :
        (t : MusicalEventType)
        → (if is_note t
            then n.column == column && ltb 0 n.velocity
            else is_chord t && c.column == column)
          ≡ starts t column n c
    go MusicalEventType.note = refl
    go MusicalEventType.param = refl
    go MusicalEventType.chord = refl
    go MusicalEventType.meta = refl

module _ (nanotick column : ℕ) where
  -- The scan narrows the span to `x` exactly when a sound starts up to there.
  next-eq :
      (x : ℕ) (es : List MusicalEvent) (s : Span)
      → leb (scan nanotick column s es).next x
        ≡ (leb s.next x || any_of (starts_until nanotick column x) es)
  unfolding scan
  next-eq x [] s = ground arith
  next-eq x (e ∷ es) s = ground (arith, next-eq x es (widen nanotick column e s))

  prev-eq :
      (x : ℕ) (es : List MusicalEvent) (s : Span)
      → 0 < x
      → leb x (lower nanotick column (scan nanotick column s es))
        ≡ (leb x (lower nanotick column s) || any_of (starts_since nanotick column x) es)
  unfolding scan
  prev-eq x [] s p = ground arith
  prev-eq x (e ∷ es) s p = ground (arith, prev-eq x es (widen nanotick column e s) p)

  until-eq : (x : ℕ) → any_of (starts_until nanotick column x) ≡ sound_until nanotick column x
  until-eq x = ap any_of (
      fun_ext
        λ b. ap (λ v. v && (ltb nanotick (tick b) && leb (tick b) x)) (is_boundary-eq column b))

  since-eq : (x : ℕ) → any_of (starts_since nanotick column x) ≡ sound_since nanotick column x
  since-eq x = ap any_of (
      fun_ext
        λ b. ap (λ v. v && (ltb (tick b) nanotick && leb x (tick b))) (is_boundary-eq column b))

  in_span-eq :
      (es : List MusicalEvent) (e : MusicalEvent)
      → in_span nanotick column (scan nanotick column no_span es) e ≡ needless nanotick column es e
  in_span-eq es e = elim (Bool-cases (ltb 0 (tick e))) [
    | inl pos ↦ ground (
      arith,
      note_off-eq column e,
      next-eq (tick e) es no_span,
      prev-eq (tick e) es no_span (ground arith),
      ap (λ f. f es) (until-eq (tick e)),
      ap (λ f. f es) (since-eq (tick e)),
    )
    | inr zero ↦ ground (arith, note_off-eq column e)
  ]

-- `removeNoteOffsInSpan` at a tick takes out exactly those notes of the column with no velocity and no
-- duration which stand at another tick, the ticks 0 and from 2^64 - 1 on apart, and between which and
-- the given tick, their own tick included, no note with a velocity and no chord of the column starts.
-- All other events stay, in their order.
pub remove_note_offs_in_span_lem :
    (c : MusicalClip) (nanotick column : ℕ)
    → remove_note_offs_in_span c nanotick column
      ≡ record c { events = remove_if (needless nanotick column c.events) c.events }
unfolding remove_note_offs_in_span
remove_note_offs_in_span_lem c nanotick column =
    ap (λ p. record c { events = remove_if p c.events })
      (fun_ext λ e. in_span-eq nanotick column c.events e)
