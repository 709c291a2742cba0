-- ===== src/RenderAhead/Tests.antt =====
-- Runs of apps/render_ahead.cpp: two channels of two samples, and room for two blocks.
use unidaw.Base.{
  ◌+◌, ◌*◌, ◌≡◌, ◌<◌, refl, true, false, List, [], ◌∷◌, ◌++◌, arith, length, if◌then◌else◌, ltb,
}
use unidaw.RenderAhead.{
  RenderCallback, RenderAheadEngine, new_render_ahead_engine, set_render_callback, start, stop,
  render_turn, read_block, begin_write, end_write,
}
use unidaw.RenderAhead.Threads.{
  Block, System, Reach, here, next, begin, store, stamp, publish, fresh,
}
use unidaw.RenderAhead.Waiting.{waiting}
use unidaw.RenderAhead.Invariant.{Consecutive}
use unidaw.RenderAhead.Fifo.{render_ahead_fifo}
use unidaw.RenderAhead.Queue.{IsReady, next_block, oldest, queue_lem}

abbrev ramp : RenderCallback
ramp num_channels num_frames sample_start channel frame = sample_start + channel * 10 + frame

abbrev player : RenderAheadEngine
player = set_render_callback (new_render_ahead_engine 2 2 3) ramp

abbrev played : RenderAheadEngine
played = record player { running = true; sample_rate = 7 }

start_once : start (start player 7) 8 ≡ played
unfolding start
start_once = refl

stop_once : (stop played).running ≡ false
unfolding stop
stop_once = refl

abbrev rendered_twice : RenderAheadEngine
rendered_twice = render_turn (render_turn played)

second_block :
    (waiting rendered_twice.ring)
    ≡ (0, (0 ∷ 1 ∷ []) ∷ (10 ∷ 11 ∷ []) ∷ []) ∷ (2, (2 ∷ 3 ∷ []) ∷ (12 ∷ 13 ∷ []) ∷ []) ∷ []
unfolding render_turn begin_write end_write
second_block = refl

full_ring : render_turn rendered_twice ≡ rendered_twice
unfolding render_turn begin_write end_write
full_ring = refl

wrong_shape : (read_block rendered_twice 1 2 5).0 ≡ false
unfolding read_block render_turn begin_write end_write
wrong_shape = refl

rendered_twice-IsReady : IsReady rendered_twice
unfolding render_turn begin_write end_write
rendered_twice-IsReady = record {
  shape = record { read_in = omega arith; write_in = omega arith; starts = refl };
  memory = refl;
}

queue_lem_example :
    let (ok, outputs, from, after) = read_block rendered_twice 2 2 5 in
    (waiting (render_turn rendered_twice).ring ≡ (
      if ltb (length (waiting rendered_twice.ring)) 2
      then waiting rendered_twice.ring ++ (next_block rendered_twice ∷ [])
      else waiting rendered_twice.ring))
    × ((ok, outputs, from, waiting after.ring)
        ≡ oldest rendered_twice 5 (waiting rendered_twice.ring))
    × IsReady (render_turn rendered_twice)
    × IsReady after
unfolding render_turn begin_write end_write
queue_lem_example = queue_lem rendered_twice 5 rendered_twice-IsReady

abbrev one_block : System
one_block = record (fresh 1 1 2) {
  ring = record ((fresh 1 1 2).ring) { sample_data = 9 ∷ 0 ∷ []; write_index = 1 };
  sample_counter = 1;
  sent = (0, (9 ∷ []) ∷ []) ∷ [];
}

one_block-Reach : Reach (fresh 1 1 2) one_block
unfolding begin_write
one_block-Reach =
    next
      (next
        (next (next here (begin (0 ∷ []) refl refl))
          (store (0 ∷ []) 0 0 9 refl (omega arith) (omega arith)))
        (stamp (0 ∷ []) refl))
      (publish refl)

render_ahead_fifo_example :
    (rest : List Block) × (one_block.sent ≡ [] ++ rest)
    × (length rest < 2)
    × Consecutive 1 0 one_block.sent
render_ahead_fifo_example = render_ahead_fifo 1 1 2 (omega arith) one_block-Reach
