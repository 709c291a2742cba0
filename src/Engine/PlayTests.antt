-- ===== src/Engine/PlayTests.antt =====
-- Blocks that are played in a loop of 100 ticks, and blocks that are made.
use unidaw.Base.{ℕ, ◌≡◌, ◌≢◌, refl, [], ◌∷◌, some, none, arith}
use unidaw.Edit.{note_event}
use unidaw.Engine.{Engine, ClipSnapshot, TrackRuntime}
use unidaw.Engine.Playback.{
  loop_range, next_ticks, block_start, gather_window, get_clip_events_in_range, advance_transport,
}
use unidaw.Engine.Gather.{spread, timed}
use unidaw.Engine.Windows.{events_at, round_tick}
use unidaw.Engine.Looped.{play_blocks, played_ticks, play_blocks_lem}
use unidaw.Engine.Blocks.{min_completed, scan_completed, claim_block, block_index, too_far_ahead}
use unidaw.Engine.BlockSlots.{claim_block-free}
use unidaw.Engine.Tests.{engine}

abbrev looped : Engine
looped = record engine {
  loop_start_nanotick = 50;
  loop_end_nanotick = 150;
  transport_nanotick = 130;
}

abbrev two_notes : ClipSnapshot
two_notes = record { events = note_event 60 0 60 80 0 1 ∷ note_event 140 0 61 80 0 2 ∷ [] }

abbrev block_ticks : ℕ → ℕ
block_ticks t = 40

-- The window from 130 goes over the end of the loop at 150 and on at 50.
both_gathered :
    gather_window two_notes (50, 150) 130 170
    ≡ (10, note_event 140 0 61 80 0 2) ∷ (30, note_event 60 0 60 80 0 1) ∷ []
unfolding gather_window get_clip_events_in_range
both_gathered = refl

-- With a block longer than the loop the second range ends after the loop's end.
late_event : gather_window two_notes (50, 60) 55 75 ≡ (15, note_event 60 0 60 80 0 1) ∷ []
unfolding gather_window get_clip_events_in_range
late_event = refl

around_the_loop : (advance_transport block_ticks looped).transport_nanotick ≡ 70
unfolding advance_transport loop_range next_ticks
around_the_loop = refl

play_blocks_lem_example :
    play_blocks block_ticks two_notes 5 looped 0
    ≡ spread
        (λ i. timed i (events_at two_notes (round_tick (loop_range looped) (block_start looped) i)))
        (played_ticks block_ticks 5 looped)
unfolding loop_range
play_blocks_lem_example =
    play_blocks_lem block_ticks two_notes 5 looped ((omega arith, tt), (tt, tt)) (omega arith)
      (λ t. omega arith)

abbrev host_completed : TrackRuntime → ℕ
host_completed r = 5

abbrev next_is_eight : claim_block 4 5 8 0 ≡ some 8
unfolding claim_block too_far_ahead
next_is_eight = refl

ahead_of_playback : claim_block 40 5 18 6 ≡ none
unfolding claim_block too_far_ahead
ahead_of_playback = refl

eighth_block : claim_block 4 (min_completed host_completed engine.tracks 8) 8 0 ≡ some 8
unfolding claim_block min_completed scan_completed too_far_ahead
eighth_block = refl

claim_block-free_example : block_index 4 7 ≢ block_index 4 8
claim_block-free_example =
    claim_block-free host_completed engine.tracks 4 0 8 0 7 (omega arith) refl refl eighth_block
      (omega arith) (omega arith)
