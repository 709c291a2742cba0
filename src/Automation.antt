-- ===== src/Automation.antt =====
-- apps/automation_clip.h: the automation of one parameter, points in the order of their ticks. A
-- float is its bit pattern, and the arithmetic of doubles between two points is a parameter.
pub mod Held
pub mod Added
mod Tests
use unidaw.Base.{
  ℕ, ◌-◌, Bool, List, [], ◌∷◌, if◌then◌else◌, ◌==◌, leb, lower_bound, take_below, drop, insert_at,
  get_or,
}

pub record AutomationPoint : Type 0 where
  pub nanotick : ℕ
  pub value : ℕ

-- `paramId_` is its characters.
pub record AutomationClip : Type 0 where
  pub param_id : List ℕ
  pub discrete_only : Bool
  pub target_plugin_index : ℕ
  pub points : List AutomationPoint

abbrev pub point_tick : AutomationPoint → ℕ
point_tick p = p.nanotick

abbrev pub new_automation_clip : List ℕ → Bool → ℕ → AutomationClip
new_automation_clip param_id discrete_only target = record {
  param_id = param_id;
  discrete_only = discrete_only;
  target_plugin_index = target;
  points = [];
}

abbrev pub add_point : AutomationClip → AutomationPoint → AutomationClip
add_point c point = record c {
  points = insert_at (c.points) (lower_bound point_tick (c.points) point.nanotick) point;
}

abbrev pub set_target_plugin_index : AutomationClip → ℕ → AutomationClip
set_target_plugin_index c target = record c { target_plugin_index = target }

-- `points_.back()`, of the points that a first one and the others make.
abbrev pub back : AutomationPoint → List AutomationPoint → AutomationPoint
back p [] = p
back p (q ∷ qs) = back q qs

-- A value between two points: `interpolate lower upper offset span` is the arithmetic of doubles
-- with the values of the points, the distance to the lower one, and that of the two.
abbrev pub between_points : (ℕ → ℕ → ℕ → ℕ → ℕ) → Bool → AutomationPoint → AutomationPoint → ℕ → ℕ
between_points interpolate discrete_only upper lower tick =
    if upper.nanotick == lower.nanotick
    then upper.value
    else if discrete_only
    then (if tick == upper.nanotick then upper.value else lower.value)
    else (interpolate lower.value upper.value (tick - lower.nanotick)
        (upper.nanotick - lower.nanotick))

-- The search, where the tick is after the first point and before the last, so that `*it` exists.
abbrev pub search_value :
    (ℕ → ℕ → ℕ → ℕ → ℕ) → Bool → AutomationPoint → List AutomationPoint → ℕ → ℕ
search_value interpolate discrete_only p ps tick =
    let it = lower_bound point_tick (p ∷ ps) tick in
    if it == 0
    then p.value
    else (between_points interpolate discrete_only (get_or (p ∷ ps) it p)
        (get_or (p ∷ ps) (it - 1) p) tick)

abbrev pub value_in : (ℕ → ℕ → ℕ → ℕ → ℕ) → Bool → List AutomationPoint → ℕ → ℕ
value_in interpolate discrete_only [] tick = 0
value_in interpolate discrete_only (p ∷ ps) tick =
    if leb tick p.nanotick
    then p.value
    else if leb (back p ps).nanotick tick
    then (back p ps).value
    else search_value interpolate discrete_only p ps tick

abbrev pub value_at : (ℕ → ℕ → ℕ → ℕ → ℕ) → AutomationClip → ℕ → ℕ
value_at interpolate c tick = value_in interpolate (c.discrete_only) (c.points) tick

abbrev pub get_points_in_range : AutomationClip → ℕ → ℕ → List AutomationPoint
get_points_in_range c start_tick end_tick =
    take_below point_tick end_tick (drop (lower_bound point_tick (c.points) start_tick) (c.points))
