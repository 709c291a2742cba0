-- ===== src/Engine/Playback.antt =====
-- The part of the producer thread of apps/daw_engine_main.cpp that moves the transport and gathers
-- the events of a block. The ticks of a block from a position on (`blockTicksFor`, in floats) are a
-- parameter.
use unidaw.Base.{
  ℕ, ◌+◌, ◌-◌, ◌*◌, ◌/◌, ◌%◌, ◌&&◌, ◌||◌, List, ◌++◌, map, if◌then◌else◌, ◌==◌, ltb, leb, drop,
  lower_bound, take_below,
}
use unidaw.Base.Words.{add64}
use unidaw.Clip.Rows.{nanoticks_per_quarter}
use unidaw.Event.{MusicalEvent, tick}
use unidaw.Engine.{Engine, ClipSnapshot}

abbrev pattern_rows : ℕ
pattern_rows = 16

abbrev pub pattern_ticks : ℕ
pattern_ticks = nanoticks_per_quarter / 4 * pattern_rows

-- The loop that is set, or the pattern where none is.
unfoldable pub loop_range : Engine → ℕ × ℕ
loop_range e =
    if leb e.loop_end_nanotick e.loop_start_nanotick
    then (0, pattern_ticks)
    else (e.loop_start_nanotick, e.loop_end_nanotick)

-- `loopEndTicks > loopStartTicks ? loopEndTicks - loopStartTicks : 0`
abbrev pub loop_len : ℕ × ℕ → ℕ
loop_len (start, end) = end - start

unfoldable pub wrap_tick : ℕ × ℕ → ℕ → ℕ
wrap_tick (start, end) t =
    if loop_len (start, end) == 0
    then t
    else if ltb t start
    then start
    else if leb end t
    then start + (t - start) % loop_len (start, end)
    else t

-- Where the transport is after a block that ends at `next`.
unfoldable pub next_ticks : ℕ × ℕ → ℕ → ℕ
next_ticks (start, end) next =
    if ltb 0 (loop_len (start, end)) && leb end next
    then start + (next - start) % loop_len (start, end)
    else next

-- `advanceTransport`, where no block is made.
unfoldable pub advance_transport : (ℕ → ℕ) → Engine → Engine
advance_transport block_ticks_for e = record e {
  transport_nanotick =
      next_ticks (loop_range e) (add64 e.transport_nanotick (block_ticks_for e.transport_nanotick));
}

unfoldable pub get_clip_events_in_range : ClipSnapshot → ℕ → ℕ → List MusicalEvent
get_clip_events_in_range snapshot start_tick end_tick =
    take_below tick end_tick (drop (lower_bound tick snapshot.events start_tick) snapshot.events)

-- The events of a range with `baseTickDelta + (event->nanotickOffset - rangeStart)`.
abbrev pub gather_range : ClipSnapshot → ℕ → ℕ → ℕ → List (ℕ × MusicalEvent)
gather_range snapshot range_start range_end base_tick_delta =
    map (λ event. (base_tick_delta + (tick event - range_start), event))
      (get_clip_events_in_range snapshot range_start range_end)

-- The calls of `emitNotes` for the window of a block.
unfoldable pub gather_window : ClipSnapshot → ℕ × ℕ → ℕ → ℕ → List (ℕ × MusicalEvent)
gather_window snapshot (start, end) window_start window_end =
    if (loop_len (start, end) == 0) || leb window_end end
    then gather_range snapshot window_start window_end 0
    else gather_range snapshot window_start end 0
      ++ gather_range snapshot start (start + (window_end - end)) (end - window_start)

abbrev pub block_start : Engine → ℕ
block_start e = wrap_tick (loop_range e) e.transport_nanotick

-- What a playing block gathers for a track, each event with its ticks from the start of the block.
unfoldable pub gather_block : (ℕ → ℕ) → ClipSnapshot → Engine → List (ℕ × MusicalEvent)
gather_block block_ticks_for snapshot e =
    gather_window snapshot (loop_range e) (block_start e)
      (add64 (block_start e) (block_ticks_for (block_start e)))

-- The transport after a playing block.
unfoldable pub finish_block : (ℕ → ℕ) → Engine → Engine
finish_block block_ticks_for e = record e {
  transport_nanotick =
      next_ticks (loop_range e) (add64 (block_start e) (block_ticks_for (block_start e)));
}
