-- ===== src/Automation/Held.antt =====
-- The values of an automation clip of apps/automation_clip.h whose parameter is discrete.
use unidaw.Base.{
  ℕ, suc, ◌-◌, ◌≤◌, ◌<◌, ◌≡◌, refl, sym, ap, ◌∙◌, inl, inr, Bool, true, false, List, [], ◌∷◌,
  if◌then◌else◌, ◌==◌, leb, ltb, lower_bound, get_or, All, All-imp, Bool-cases, arith,
}
use unidaw.Automation.{
  AutomationPoint, AutomationClip, point_tick, back, between_points, value_in, value_at,
}

-- Points of ascending ticks, one at each tick at most.
unfoldable pub IsAscending : List AutomationPoint → Type 0
IsAscending [] = Unit
IsAscending (p ∷ ps) = All (λ q. p.nanotick < q.nanotick) ps × IsAscending ps

-- The value of the last of the points that is not after the tick, or `value` before them.
pub held : ℕ → ℕ → List AutomationPoint → ℕ
held tick value [] = value
held tick value (p ∷ ps) = held tick (if leb p.nanotick tick then p.value else value) ps

-- The value that a discrete parameter holds: at first that of the first point.
pub held_from_first : ℕ → List AutomationPoint → ℕ
held_from_first tick [] = 0
held_from_first tick (p ∷ ps) = held tick p.value ps

held_above : (t v : ℕ) (ps : List AutomationPoint) → All (λ q. t < q.nanotick) ps → held t v ps ≡ v
unfolding held
held_above t v [] h = refl
held_above t v (p ∷ ps) h = rw (leb_above p.nanotick t h.0) (held_above t v ps h.1)
  where
    leb_above : (a b : ℕ) → b < a → leb a b ≡ false
    leb_above a b h = ground arith

held-back :
    (t v : ℕ) (p : AutomationPoint) (ps : List AutomationPoint)
    → (back p ps).nanotick ≤ t
    → held t v (p ∷ ps) ≡ (back p ps).value
unfolding held
held-back t v p [] h = ground arith
held-back t v p (q ∷ qs) h = held-back t (if leb p.nanotick t then p.value else v) q qs h

-- Between the first point and the last, the search finds what is held.
search_held :
    (interpolate : ℕ → ℕ → ℕ → ℕ → ℕ) (t : ℕ) (d p : AutomationPoint) (ps : List AutomationPoint)
    → IsAscending (p ∷ ps)
    → p.nanotick < t
    → t < (back p ps).nanotick
    → between_points interpolate true
        (get_or ps (lower_bound point_tick ps t) d)
        (get_or (p ∷ ps) (lower_bound point_tick ps t) d)
        t
      ≡ held t p.value ps
unfolding IsAscending held
search_held interpolate t d p [] s lo hi = ground arith
search_held interpolate t d p (q ∷ qs) s lo hi = elim (Bool-cases (ltb q.nanotick t)) [
  | inl below ↦
      rw below
        (rw (not_after q.nanotick t below) (search_held interpolate t d q qs s.1 (ground arith) hi))
  | inr from ↦ rw from (at_or_after (ground arith))
]
  where
    not_after : (a b : ℕ) → ltb a b ≡ true → leb a b ≡ true
    not_after a b h = ground arith

    above : t ≤ q.nanotick → All (λ x. t < x.nanotick) qs
    above le =
        All-imp (λ x. q.nanotick < x.nanotick) (λ x. t < x.nanotick) qs (λ x r. omega arith) s.1.0

    at_or_after :
        t ≤ q.nanotick
        → between_points interpolate true q p t
          ≡ held t (if leb q.nanotick t then q.value else p.value) qs
    at_or_after le =
        ground
          (arith, s.0.0, held_above t (if leb q.nanotick t then q.value else p.value) qs (above le))

-- After the first point and before the last one the value is that between two points, where the
-- search among all but the first point ends.
pub value_in-within :
    (interpolate : ℕ → ℕ → ℕ → ℕ → ℕ) (discrete : Bool) (t : ℕ) (p : AutomationPoint)
    (ps : List AutomationPoint)
    → leb t p.nanotick ≡ false
    → leb (back p ps).nanotick t ≡ false
    → value_in interpolate discrete (p ∷ ps) t
      ≡ between_points interpolate discrete
          (get_or ps (lower_bound point_tick ps t) p)
          (get_or (p ∷ ps) (lower_bound point_tick ps t) p)
          t
value_in-within interpolate discrete t p ps later within = rw later (
    rw within (
      rw (below later) (
        rw (after_first (lower_bound point_tick ps t))
          (rw (last_before (lower_bound point_tick ps t)) refl))))
  where
    below : leb t p.nanotick ≡ false → ltb p.nanotick t ≡ true
    below h = ground arith

    after_first : (n : ℕ) → (suc n == 0) ≡ false
    after_first n = ground arith

    last_before : (n : ℕ) → suc n - 1 ≡ n
    last_before n = omega arith

value_in_held :
    (interpolate : ℕ → ℕ → ℕ → ℕ → ℕ) (t : ℕ) (ps : List AutomationPoint)
    → IsAscending ps
    → value_in interpolate true ps t ≡ held_from_first t ps
unfolding IsAscending held_from_first held
value_in_held interpolate t [] s = refl
value_in_held interpolate t (p ∷ ps) s = elim (Bool-cases (leb t p.nanotick)) [
  | inl early ↦ rw early (sym (held_above t p.value ps (above (ground arith))))
  | inr later ↦ elim (Bool-cases (leb (back p ps).nanotick t)) [
    | inl late ↦ rw later (rw late (at_end (ground arith) (ground arith)))
    | inr within ↦
        value_in-within interpolate true t p ps later within
        ∙ search_held interpolate t p p ps s (ground arith) (ground arith)
  ]
]
  where
    above : t ≤ p.nanotick → All (λ q. t < q.nanotick) ps
    above le =
        All-imp (λ q. p.nanotick < q.nanotick) (λ q. t < q.nanotick) ps (λ q r. omega arith) s.0

    at_end : p.nanotick < t → (back p ps).nanotick ≤ t → (back p ps).value ≡ held t p.value ps
    at_end lo le = sym (held-back t p.value p ps le) ∙ ap (λ v. held t v ps) (ground arith)

-- A discrete parameter whose points have different ticks has at each tick the value of the last
-- point that is not after it, before the first point the value of that, and 0 without points.
pub value_at_held :
    (interpolate : ℕ → ℕ → ℕ → ℕ → ℕ) (c : AutomationClip) (t : ℕ)
    → c.discrete_only ≡ true
    → IsAscending (c.points)
    → value_at interpolate c t ≡ held_from_first t (c.points)
value_at_held interpolate c t discrete ascending =
    rw discrete (value_in_held interpolate t (c.points) ascending)
