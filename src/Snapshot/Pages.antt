-- ===== src/Snapshot/Pages.antt =====
-- A UI that asks for page after page of a window, each from where the last one ended.
use unidaw.Base.{
  ℕ, suc, ◌+◌, ◌≤◌, ◌<◌, ◌≡◌, refl, ap, Bool, true, false, ◌&&◌, ◌||◌, List, [], ◌∷◌, ◌++◌, inl,
  inr, ltb, leb, if◌then◌else◌, length, drop, take_below, arith, Bool-cases,
}
use unidaw.Event.{MusicalEvent, is_note, is_chord, tick}
use unidaw.Snapshot.{
  UiClipNote, UiClipChord, ui_note, ui_chord, Filled, fill, full, scan, ui_max_clip_notes,
  ui_max_clip_chords,
}

-- The notes and the chords among some events, as the UI sees them.
abbrev pub notes_of : List MusicalEvent → List UiClipNote
notes_of [] = []
notes_of (e ∷ es) = if is_note e.type then ui_note e ∷ notes_of es else notes_of es

abbrev pub chords_of : List MusicalEvent → List UiClipChord
chords_of [] = []
chords_of (e ∷ es) = if is_chord e.type then ui_chord e ∷ chords_of es else chords_of es

below : (t limit : ℕ) (b : Bool) → (leb limit t || b) ≡ false → ltb t limit ≡ true
below t limit b h = ground arith

neither : (a b : Bool) → (a || b) ≡ false → b ≡ false
neither a b h = ground arith

-- There is room for the event that is filled in.
room :
    (b c : Bool) (n k m l : ℕ)
    → (b && leb m n || c && leb l k) ≡ false
    → n ≤ m
    → k ≤ l
    → ((if b then suc n else n) ≤ m) × ((if c then suc k else k) ≤ l)
room b c n k m l h p q = ground arith

no_room_needed :
    (b c : Bool) (t limit : ℕ) → t < limit → (leb limit t || (b && false || c && false)) ≡ false
no_room_needed b c t limit h = ground arith

within :
    {A : Type 0} (b : Bool) (x : A) (xs : List A) (n m : ℕ)
    → (if b then suc n else n) + length xs ≤ m
    → n + length (if b then x ∷ xs else xs) ≤ m
within true x xs n m h = omega (arith, h)
within false x xs n m h = h

fill-notes :
    (e : MusicalEvent) (rest : Filled) (es : List MusicalEvent) (more : List UiClipNote)
    → notes_of es ≡ rest.notes ++ more
    → notes_of (e ∷ es) ≡ (fill e rest).notes ++ more
fill-notes e rest es more h = elim (Bool-cases (is_note e.type)) [
  | inl y ↦ rw y (ap (◌∷◌ (ui_note e)) h)
  | inr n ↦ rw n h
]

fill-chords :
    (e : MusicalEvent) (rest : Filled) (es : List MusicalEvent) (more : List UiClipChord)
    → chords_of es ≡ rest.chords ++ more
    → chords_of (e ∷ es) ≡ (fill e rest).chords ++ more
fill-chords e rest es more h = elim (Bool-cases (is_chord e.type)) [
  | inl y ↦ rw y (ap (◌∷◌ (ui_chord e)) h)
  | inr n ↦ rw n h
]

module _ (limit : ℕ) where
  abbrev pub window : List MusicalEvent → List MusicalEvent
  window es = take_below tick limit es

  -- A page and what follows it make up the window.
  pub scan-notes :
      (n k : ℕ) (es : List MusicalEvent)
      → notes_of (window es)
        ≡ (scan limit n k es).notes ++ notes_of (window (drop (scan limit n k es).taken es))
  unfolding scan
  scan-notes n k [] = refl
  scan-notes n k (e ∷ es) =
      let n' = if is_note e.type then suc n else n in
      let k' = if is_chord e.type then suc k else k in
      elim (Bool-cases (leb limit (tick e) || full n k e)) [
        | inl stop ↦ rw (stop, scan) refl
        | inr go ↦
            rw (go, below (tick e) limit (full n k e) go, scan)
              (fill-notes e (scan limit n' k' es) (window es) _ (scan-notes n' k' es))
      ]

  pub scan-chords :
      (n k : ℕ) (es : List MusicalEvent)
      → chords_of (window es)
        ≡ (scan limit n k es).chords ++ chords_of (window (drop (scan limit n k es).taken es))
  unfolding scan
  scan-chords n k [] = refl
  scan-chords n k (e ∷ es) =
      let n' = if is_note e.type then suc n else n in
      let k' = if is_chord e.type then suc k else k in
      elim (Bool-cases (leb limit (tick e) || full n k e)) [
        | inl stop ↦ rw (stop, scan) refl
        | inr go ↦
            rw (go, below (tick e) limit (full n k e) go, scan)
              (fill-chords e (scan limit n' k' es) (window es) _ (scan-chords n' k' es))
      ]

  -- It fits: no array of the snapshot overflows.
  pub scan-fits :
      (n k : ℕ) (es : List MusicalEvent)
      → n ≤ ui_max_clip_notes
      → k ≤ ui_max_clip_chords
      → (n + length (scan limit n k es).notes ≤ ui_max_clip_notes)
        × (k + length (scan limit n k es).chords ≤ ui_max_clip_chords)
  unfolding scan
  scan-fits n k [] h g = (omega arith, omega arith)
  scan-fits n k (e ∷ es) h g = elim (Bool-cases (leb limit (tick e) || full n k e)) [
    | inl stop ↦ rw (stop, scan) (omega arith, omega arith)
    | inr go ↦
        rw (go, scan)
          (let n' = if is_note e.type then suc n else n in
            let k' = if is_chord e.type then suc k else k in
            let r =
              room (is_note e.type) (is_chord e.type) n k ui_max_clip_notes ui_max_clip_chords
                (neither (leb limit (tick e)) (full n k e) go) h g in
            let f = scan-fits n' k' es r.0 r.1 in
            (
              within (is_note e.type) (ui_note e) (scan limit n' k' es).notes n ui_max_clip_notes
                  f.0,
              within (is_chord e.type) (ui_chord e) (scan limit n' k' es).chords k
                  ui_max_clip_chords f.1,
            ))
  ]

  pub scan-taken-le : (n k : ℕ) (es : List MusicalEvent) → (scan limit n k es).taken ≤ length es
  unfolding scan
  scan-taken-le n k [] = omega arith
  scan-taken-le n k (e ∷ es) = elim (Bool-cases (leb limit (tick e) || full n k e)) [
    | inl stop ↦ rw (stop, scan) (omega arith)
    | inr go ↦
        rw (go, scan)
          (omega (
            arith,
            scan-taken-le (if is_note e.type then suc n else n)
                (if is_chord e.type then suc k else k) es,
          ))
  ]

  -- A page that starts on an event of the window takes it.
  pub scan_moves :
      (e : MusicalEvent) (es : List MusicalEvent)
      → tick e < limit
      → 1 ≤ (scan limit 0 0 (e ∷ es)).taken
  unfolding scan
  scan_moves e es h =
      rw (no_room_needed (is_note e.type) (is_chord e.type) (tick e) limit h, scan) (omega arith)
