-- ===== src/Automation/Tests.antt =====
-- A fade in three points, added out of order.
use unidaw.Base.{ℕ, ◌+◌, ◌*◌, ◌/◌, ◌≡◌, refl, true, false, List, [], ◌∷◌, arith, length, IsSorted}
use unidaw.Base.Ranges.{select}
use unidaw.Automation.{
  AutomationPoint, AutomationClip, point_tick, new_automation_clip, value_at, get_points_in_range,
}
use unidaw.Automation.Held.{IsAscending, held_from_first, value_at_held}
use unidaw.Automation.Added.{add_points, get_points_in_range_lem, Neighbours, value_at-Neighbours}

abbrev at : ℕ → ℕ → AutomationPoint
at tick value = record { nanotick = tick; value = value }

abbrev fade : List AutomationPoint
fade = at 20 6 ∷ at 0 1 ∷ at 10 4 ∷ []

abbrev sorted_fade : List AutomationPoint
sorted_fade = at 0 1 ∷ at 10 4 ∷ at 20 6 ∷ []

-- A line between the points, in whole numbers.
abbrev line : ℕ → ℕ → ℕ → ℕ → ℕ
line lower upper offset span = lower + upper * offset / span

abbrev stepped : AutomationClip
stepped = add_points (new_automation_clip [] true 0) fade

fade_is_sorted : (add_points (new_automation_clip [] true 0) fade).points ≡ sorted_fade
unfolding add_points
fade_is_sorted = refl

-- A second point at a tick comes before the first one there: it counts between other points, but at
-- the end of the clip the older one does.
newest_in_the_middle : value_at line (add_points stepped (at 10 9 ∷ [])) 10 ≡ 9
unfolding add_points
newest_in_the_middle = refl

oldest_at_the_end : value_at line (add_points stepped (at 20 9 ∷ [])) 20 ≡ 6
unfolding add_points
oldest_at_the_end = refl

abbrev stepped_clip : AutomationClip
stepped_clip = record {
  param_id = [];
  discrete_only = true;
  target_plugin_index = 0;
  points = sorted_fade;
}

value_at_held_example : value_at line stepped_clip 15 ≡ held_from_first 15 sorted_fade
unfolding IsAscending
value_at_held_example =
    value_at_held line stepped_clip 15 refl
      (((omega arith, (omega arith, tt)), ((omega arith, tt), (tt, tt))))

get_points_in_range_lem_example :
    let c = add_points (new_automation_clip [] true 0) fade in
    (get_points_in_range c 5 20 ≡ select point_tick 5 20 (c.points))
    × IsSorted point_tick (c.points)
    × (length (c.points) ≡ 3)
get_points_in_range_lem_example = get_points_in_range_lem [] true 0 fade 5 20

value_at-Neighbours_example :
    Neighbours line sorted_fade 15
      (value_at line (add_points (new_automation_clip [] false 0) fade) 15)
unfolding add_points
value_at-Neighbours_example =
    value_at-Neighbours line [] 0 fade (at 0 1) (at 10 4 ∷ at 20 6 ∷ []) 15 refl (omega arith)
      (omega arith)
