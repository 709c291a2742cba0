-- ===== src/Engine/Timeline.antt =====
-- The harmony events as a map from ticks, through the two edits of apps/daw_engine_main.cpp.
use unidaw.Base.{
  sym, ap, ◌∙◌, ℕ, suc, ◌≤◌, ◌<◌, ◌≡◌, refl, true, List, [], ◌∷◌, Option, none, some, inl, inr,
  get_elem?, lower_bound, if◌then◌else◌, ltb, ◌==◌, All, All-imp, Bool-cases, Option-cases, arith,
  ◌⊎◌,
}
use unidaw.Harmony.{HarmonyEvent, tick_of}
use unidaw.Engine.HarmonyEdits.{new_event, write_event, erase_event}

-- Ticks ascend, and no flag is set.
abbrev pub IsTimeline : List HarmonyEvent → Type 0
IsTimeline [] = Unit
IsTimeline (e ∷ es) = (e.flags ≡ 0) × All (λ x. suc e.nanotick ≤ x.nanotick) es × IsTimeline es

-- The root and the scale at a tick.
unfoldable pub harmony_of : List HarmonyEvent → ℕ → Option (ℕ × ℕ)
harmony_of [] t = none
harmony_of (e ∷ es) t = if e.nanotick == t then some (e.root, e.scale_id) else harmony_of es t

module _ (e : HarmonyEvent) (es : List HarmonyEvent) (t : ℕ) where
  module _ (r s : ℕ) where
    pub write_below :
        ltb e.nanotick t ≡ true
        → write_event (e ∷ es) t r s ≡ ((write_event es t r s).0, e ∷ (write_event es t r s).1)
    unfolding write_event
    write_below h = elim (Option-cases (get_elem? es (lower_bound tick_of es t))) [
      | inl z ↦ ground arith
      | inr (x, z) ↦ elim (Bool-cases (x.nanotick == t)) [
        | inl y ↦ ground arith
        | inr n ↦ ground arith
      ]
    ]

    pub write_here :
        e.nanotick ≡ t
        → write_event (e ∷ es) t r s ≡ (some e, record e { root = r; scale_id = s } ∷ es)
    unfolding write_event
    write_here h = ground arith

    pub write_above : t < e.nanotick → write_event (e ∷ es) t r s ≡ (none, new_event t r s ∷ e ∷ es)
    unfolding write_event
    write_above h = ground arith

  pub erase_below :
      ltb e.nanotick t ≡ true
      → erase_event (e ∷ es) t ≡ ((erase_event es t).0, e ∷ (erase_event es t).1)
  unfolding erase_event
  erase_below h = elim (Option-cases (get_elem? es (lower_bound tick_of es t))) [
    | inl z ↦ ground arith
    | inr (x, z) ↦ elim (Bool-cases (x.nanotick == t)) [
      | inl y ↦ ground arith
      | inr n ↦ ground arith
    ]
  ]

  pub erase_here : e.nanotick ≡ t → erase_event (e ∷ es) t ≡ (some e, es)
  unfolding erase_event
  erase_here h = ground arith

  pub erase_above : t < e.nanotick → erase_event (e ∷ es) t ≡ (none, e ∷ es)
  unfolding erase_event
  erase_above h = ground arith

pub tick_cases : (a t : ℕ) → (ltb a t ≡ true) ⊎ ((a ≡ t) ⊎ (t < a))
tick_cases a t = elim (Bool-cases (ltb a t)) [
  | inl lt ↦ inl lt
  | inr ge ↦
      inr (elim (Bool-cases (a == t)) [ inl eq ↦ inl (ground arith) | inr ne ↦ inr (ground arith) ])
]

after-All :
    (a : ℕ) (e : HarmonyEvent) (es : List HarmonyEvent)
    → suc a ≤ e.nanotick
    → All (λ x. suc e.nanotick ≤ x.nanotick) es
    → All (λ x. suc a ≤ x.nanotick) es
after-All a e es le h = All-imp _ _ es (λ x q. omega arith) h

module _ (t r s : ℕ) where
  write_event-All :
      (a : ℕ) (es : List HarmonyEvent)
      → suc a ≤ t
      → All (λ x. suc a ≤ x.nanotick) es
      → All (λ x. suc a ≤ x.nanotick) (write_event es t r s).1
  unfolding write_event
  write_event-All a [] le h = (le, tt)
  write_event-All a (e ∷ es) le h = elim (tick_cases e.nanotick t) [
    | inl lt ↦ rw (write_below e es t r s lt) (h.0, write_event-All a es le h.1)
    | inr (inl eq) ↦ rw (write_here e es t r s eq) h
    | inr (inr gt) ↦ rw (write_above e es t r s gt) (le, h)
  ]

  pub write_event-IsTimeline :
      (es : List HarmonyEvent) → IsTimeline es → IsTimeline (write_event es t r s).1
  unfolding write_event
  write_event-IsTimeline [] h = (refl, tt, tt)
  write_event-IsTimeline (e ∷ es) h = elim (tick_cases e.nanotick t) [
    | inl lt ↦
        rw (write_below e es t r s lt)
          (h.0, write_event-All e.nanotick es (ground arith) h.1, write_event-IsTimeline es h.2)
    | inr (inl eq) ↦ rw (write_here e es t r s eq) h
    | inr (inr gt) ↦ rw (write_above e es t r s gt) (refl, (gt, after-All t e es gt h.1), h)
  ]

  -- The new event stands alone at its tick.
  pub harmony_of-write_event :
      (es : List HarmonyEvent) (u : ℕ)
      → harmony_of (write_event es t r s).1 u ≡ (if t == u then some (r, s) else harmony_of es u)
  unfolding write_event harmony_of
  harmony_of-write_event [] u = refl
  harmony_of-write_event (e ∷ es) u = elim (tick_cases e.nanotick t) [
    | inl lt ↦ rw (write_below e es t r s lt) (ground (arith, harmony_of-write_event es u))
    | inr (inl eq) ↦ rw (write_here e es t r s eq) (ground arith)
    | inr (inr gt) ↦ rw (write_above e es t r s gt) refl
  ]

erase_event-All :
    (t a : ℕ) (es : List HarmonyEvent)
    → All (λ x. suc a ≤ x.nanotick) es
    → All (λ x. suc a ≤ x.nanotick) (erase_event es t).1
unfolding erase_event
erase_event-All t a [] h = tt
erase_event-All t a (e ∷ es) h = elim (tick_cases e.nanotick t) [
  | inl lt ↦ rw (erase_below e es t lt) (h.0, erase_event-All t a es h.1)
  | inr (inl eq) ↦ rw (erase_here e es t eq) h.1
  | inr (inr gt) ↦ rw (erase_above e es t gt) h
]

pub erase_event-IsTimeline :
    (t : ℕ) (es : List HarmonyEvent) → IsTimeline es → IsTimeline (erase_event es t).1
unfolding erase_event
erase_event-IsTimeline t [] h = tt
erase_event-IsTimeline t (e ∷ es) h = elim (tick_cases e.nanotick t) [
  | inl lt ↦
      rw (erase_below e es t lt)
        (h.0, erase_event-All t e.nanotick es h.1, erase_event-IsTimeline t es h.2)
  | inr (inl eq) ↦ rw (erase_here e es t eq) h.2
  | inr (inr gt) ↦ rw (erase_above e es t gt) h
]

pub harmony_of-above :
    (es : List HarmonyEvent) (a u : ℕ)
    → u ≤ a
    → All (λ x. suc a ≤ x.nanotick) es
    → harmony_of es u ≡ none
unfolding harmony_of
harmony_of-above [] a u le h = refl
harmony_of-above (e ∷ es) a u le h = ground (arith, harmony_of-above es a u le h.1)

pub harmony_of-erase_event :
    (t : ℕ) (es : List HarmonyEvent) (u : ℕ)
    → IsTimeline es
    → harmony_of (erase_event es t).1 u ≡ (if t == u then none else harmony_of es u)
unfolding erase_event harmony_of
harmony_of-erase_event t [] u h = ground arith
harmony_of-erase_event t (e ∷ es) u h = elim (tick_cases e.nanotick t) [
  | inl lt ↦ rw (erase_below e es t lt) (ground (arith, harmony_of-erase_event t es u h.2))
  | inr (inl eq) ↦ rw (erase_here e es t eq) (elim (Bool-cases (t == u)) [
    | inl same ↦ ground (arith, harmony_of-above es e.nanotick u (ground arith) h.1)
    | inr other ↦ ground arith
  ])
  | inr (inr gt) ↦ rw (erase_above e es t gt) (elim (Bool-cases (t == u)) [
    | inl same ↦ ground (arith, harmony_of-above es e.nanotick u (ground arith) h.1)
    | inr other ↦ ground arith
  ])
]

-- Nothing to erase is nothing in force from that tick on.
pub harmony_of-erase_missing :
    (t : ℕ) (es : List HarmonyEvent)
    → IsTimeline es
    → (erase_event es t).0 ≡ none
    → harmony_of es t ≡ none
unfolding harmony_of
harmony_of-erase_missing t [] h z = refl
harmony_of-erase_missing t (e ∷ es) h z = elim (tick_cases e.nanotick t) [
  | inl lt ↦
      ground
        (arith, harmony_of-erase_missing t es h.2 (sym (ap (λ x. x.0) (erase_below e es t lt)) ∙ z))
  | inr (inl eq) ↦ cc (sym z ∙ ap (λ x. x.0) (erase_here e es t eq))
  | inr (inr gt) ↦ ground (arith, harmony_of-above es e.nanotick t (ground arith) h.1)
]

pub erase_missing :
    (t : ℕ) (es : List HarmonyEvent) → (erase_event es t).0 ≡ none → (erase_event es t).1 ≡ es
unfolding erase_event
erase_missing t es z = ground arith
