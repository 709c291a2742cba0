-- ===== src/Automation/Added.antt =====
-- The points of an automation clip of apps/automation_clip.h after any calls of addPoint.
use unidaw.Base.{
  ℕ, ◌+◌, ◌-◌, ◌≤◌, ◌<◌, ◌≡◌, refl, sym, ap, ap₂, subst, ◌∙◌, inl, inr, Bool, false, List, [], ◌∷◌,
  ◌++◌, leb, ltb, lower_bound, get_or, Bool-cases, arith, insert_at-IsSorted, IsSorted, length,
  length-insert_at,
}
use unidaw.Automation.Held.{value_in-within}
use unidaw.Base.Ranges.{select, range-eq-select}
use unidaw.Automation.{
  AutomationPoint, AutomationClip, point_tick, add_point, new_automation_clip, back, between_points,
  value_in, value_at, get_points_in_range,
}

-- An automation clip with points added one after the other.
unfoldable pub add_points : AutomationClip → List AutomationPoint → AutomationClip
add_points c [] = c
add_points c (p ∷ ps) = add_points (add_point c p) ps

add_points-IsSorted :
    (c : AutomationClip) (ps : List AutomationPoint)
    → IsSorted point_tick (c.points)
    → IsSorted point_tick ((add_points c ps).points)
unfolding add_points
add_points-IsSorted c [] h = h
add_points-IsSorted c (p ∷ ps) h =
    add_points-IsSorted (add_point c p) ps (insert_at-IsSorted point_tick (c.points) p h)

add_points-length :
    (c : AutomationClip) (ps : List AutomationPoint)
    → length ((add_points c ps).points) ≡ length ps + length (c.points)
unfolding add_points
add_points-length c [] = omega arith
add_points-length c (p ∷ ps) = ground (
  arith,
  add_points-length (add_point c p) ps,
  length-insert_at (c.points) (lower_bound point_tick (c.points) p.nanotick) p,
)

-- Whatever points are added to a new automation clip, in any order, getPointsInRange gives those of
-- the clip's points whose tick is in the range, from its start and before its end, and in their
-- order. The clip's ticks ascend, and it has as many points as were added.
pub get_points_in_range_lem :
    (param_id : List ℕ) (discrete : Bool) (target : ℕ) (ps : List AutomationPoint) (lo hi : ℕ)
    → let c = add_points (new_automation_clip param_id discrete target) ps in
      (get_points_in_range c lo hi ≡ select point_tick lo hi (c.points))
      × IsSorted point_tick (c.points)
      × (length (c.points) ≡ length ps)
get_points_in_range_lem param_id discrete target ps lo hi =
    let sorted = add_points-IsSorted (new_automation_clip param_id discrete target) ps tt in
    (
      range-eq-select point_tick lo hi
          ((add_points (new_automation_clip param_id discrete target) ps).points) sorted,
      sorted,
      ground (arith, add_points-length (new_automation_clip param_id discrete target) ps),
    )

add_points-discrete_only :
    (c : AutomationClip) (ps : List AutomationPoint)
    → (add_points c ps).discrete_only ≡ c.discrete_only
unfolding add_points
add_points-discrete_only c [] = refl
add_points-discrete_only c (p ∷ ps) = add_points-discrete_only (add_point c p) ps

-- Two points next to each other, the lower before the tick and the upper at or after it, in values
-- of `interpolate`.
pub record Neighbours (interpolate : ℕ → ℕ → ℕ → ℕ → ℕ) (points : List AutomationPoint) (tick : ℕ)
    (value : ℕ) : Type 0 where
  pub before : List AutomationPoint
  pub lower : AutomationPoint
  pub upper : AutomationPoint
  pub after : List AutomationPoint
  pub whole : points ≡ before ++ (lower ∷ upper ∷ after)
  pub from : lower.nanotick < tick
  pub until : tick ≤ upper.nanotick
  pub line :
      value
      ≡ interpolate lower.value upper.value
          (tick - lower.nanotick)
          (upper.nanotick - lower.nanotick)

search-Neighbours :
    (f : ℕ → ℕ → ℕ → ℕ → ℕ) (t : ℕ) (d p : AutomationPoint) (ps : List AutomationPoint)
    → p.nanotick < t
    → t < (back p ps).nanotick
    → Neighbours f (p ∷ ps) t (
        between_points f false
          (get_or ps (lower_bound point_tick ps t) d)
          (get_or (p ∷ ps) (lower_bound point_tick ps t) d)
          t)
search-Neighbours f t d p [] lo hi = ground arith
search-Neighbours f t d p (q ∷ qs) lo hi = elim (Bool-cases (ltb q.nanotick t)) [
  | inl below ↦
      let rest = search-Neighbours f t d q qs (ground arith) hi in
      rw below (record {
        before = p ∷ rest.before;
        lower = rest.lower;
        upper = rest.upper;
        after = rest.after;
        whole = ap (λ ys. p ∷ ys) rest.whole;
        from = rest.from;
        until = rest.until;
        line = rest.line;
      })
  | inr at ↦ rw at (record {
    before = [];
    lower = p;
    upper = q;
    after = qs;
    whole = refl;
    from = lo;
    until = ground arith;
    line = ground arith;
  })
]

-- Whatever points are added to a new automation clip that is not discrete, the value at a tick after
-- the first point and before the last one is interpolated from two points of the clip that stand next
-- to each other, the one before the tick and the other at or after it.
pub value_at-Neighbours :
    (interpolate : ℕ → ℕ → ℕ → ℕ → ℕ) (param_id : List ℕ) (target : ℕ)
    (added : List AutomationPoint) (p : AutomationPoint) (ps : List AutomationPoint) (t : ℕ)
    → (add_points (new_automation_clip param_id false target) added).points ≡ p ∷ ps
    → p.nanotick < t
    → t < (back p ps).nanotick
    → Neighbours interpolate
        (p ∷ ps)
        t
        (value_at interpolate (add_points (new_automation_clip param_id false target) added) t)
value_at-Neighbours interpolate param_id target added p ps t points lo hi =
    subst (Neighbours interpolate (p ∷ ps) t)
      (sym (
        ap₂ (λ b ys. value_in interpolate b ys t) (add_points-discrete_only clip added) points
        ∙ value_in-within interpolate false t p ps (not_before t p.nanotick lo)
            (not_before (back p ps).nanotick t hi)))
      (search-Neighbours interpolate t p p ps lo hi)
  where
    clip : AutomationClip
    clip = new_automation_clip param_id false target

    not_before : (a b : ℕ) → b < a → leb a b ≡ false
    not_before a b h = ground arith
