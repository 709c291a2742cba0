-- ===== src/Engine/Blocks.antt =====
-- Which block the producer thread of apps/daw_engine_main.cpp makes next, if any. The number of the
-- last block that a track's host completed, which the host writes to its mailbox, is a parameter,
-- and 0 where there is no mailbox.
use unidaw.Base.{
  ℕ, ◌+◌, ◌-◌, ◌*◌, ◌^◌, ◌%◌, min, Bool, true, false, ◌&&◌, ◌||◌, List, [], ◌∷◌, Option, none, some,
  if◌then◌else◌, ◌==◌, ltb, leb,
}
use unidaw.Base.Words.{u32_max, add32}
use unidaw.Engine.{TrackRuntime}

abbrev pub sub32 : ℕ → ℕ → ℕ
sub32 a b = (a + 2 ^ 32 - b) % 2 ^ 32

-- A host that has completed a block makes its track active.
unfoldable pub mark_active : (TrackRuntime → ℕ) → TrackRuntime → TrackRuntime
mark_active completed r =
    if r.host_ready && ltb 0 (completed r) then record r { active = true } else r

-- The tracks whose hosts the loop waits for.
abbrev pub counts : (TrackRuntime → ℕ) → TrackRuntime → Bool
counts completed r = r.host_ready && (ltb 0 (completed r) || r.active)

-- `minCompleted` and `anyActive` after the loop, the minimum taken from the last track on.
unfoldable pub scan_completed : (TrackRuntime → ℕ) → List TrackRuntime → ℕ × Bool
scan_completed completed [] = (u32_max, false)
scan_completed completed (r ∷ rs) =
    let rest = scan_completed completed rs in
    if counts completed r then (min (completed r) rest.0, true) else rest

unfoldable pub min_completed : (TrackRuntime → ℕ) → List TrackRuntime → (next_block_id : ℕ) → ℕ
min_completed completed runtimes next_block_id =
    let found = scan_completed completed runtimes in if found.1 then found.0 else next_block_id - 1

abbrev pub max_ahead : ℕ
max_ahead = 10

-- Whether the thread is too far ahead of what the audio callback plays.
unfoldable pub too_far_ahead : (current_playback next_block_id : ℕ) → Bool
too_far_ahead current_playback next_block_id =
    ltb 0 current_playback
    && leb current_playback next_block_id
    && ltb max_ahead (next_block_id - current_playback)

-- The number of the block that is made, or `none` where the thread sleeps and tries again.
unfoldable pub claim_block : (num_blocks completed next_block_id current_playback : ℕ) → Option ℕ
claim_block num_blocks completed next_block_id current_playback =
    if completed == u32_max
    then none
    else if leb num_blocks (sub32 next_block_id completed)
    then none
    else if too_far_ahead current_playback next_block_id
    then none
    else some next_block_id

-- `nextBlockId` afterwards, and the first sample of the block.
abbrev pub id_after : ℕ → ℕ
id_after block_id = add32 block_id 1

abbrev pub block_sample_start : ℕ → ℕ → ℕ
block_sample_start block_size block_id = block_size * sub32 block_id 1 % 2 ^ 64

-- The slot of a host's memory that a block uses.
abbrev pub block_index : ℕ → ℕ → ℕ
block_index num_blocks block_id = block_id % num_blocks
