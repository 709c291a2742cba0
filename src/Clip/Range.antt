-- ===== src/Clip/Range.antt =====
-- The events of a window of ticks.
use unidaw.Base.{ℕ, ◌≡◌, IsSorted}
use unidaw.Base.Ranges.{select, range-eq-select}
use unidaw.Event.{tick}
use unidaw.Clip.{MusicalClip, get_events_in_range}

-- On a clip in tick order, the binary search and the loop of `getEventsInRange` collect exactly the
-- events whose tick lies from the start up to and without the end, in the order of the clip.
pub get_events_in_range_lem :
    (c : MusicalClip) (start_tick end_tick : ℕ)
    → IsSorted tick c.events
    → get_events_in_range c start_tick end_tick ≡ select tick start_tick end_tick c.events
unfolding get_events_in_range
get_events_in_range_lem c start_tick end_tick s =
    range-eq-select tick start_tick end_tick c.events s
