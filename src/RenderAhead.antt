-- ===== src/RenderAhead.antt =====
-- apps/render_ahead.h and apps/render_ahead.cpp: the ring of rendered audio blocks, and the engine
-- whose thread fills it ahead of the audio callback. A pointer into `data_` is its index, a sample
-- its bits. What a render callback writes through its pointers is a function of the arguments it
-- gets, the channel and the frame; the thread itself, and the pause of a full ring, are left out.
pub mod Cells
pub mod Threads
pub mod Waiting
pub mod Locals
pub mod Invariant
pub mod Fifo
pub mod Copies
pub mod Queue
pub mod Tests
use unidaw.Base.{
  ℕ, zero, suc, ◌+◌, ◌*◌, ◌%◌, ◌≡◌, refl, Bool, true, false, List, [], ◌∷◌, ◌++◌, Option, none,
  some, set, get_or, replicate, if◌then◌else◌, ◌==◌, ◌&&◌,
}

-- `read_index` and `write_index` are the atomics.
pub record AudioBlockRing : Type 0 where
  pub num_channels : ℕ
  pub block_size : ℕ
  pub capacity : ℕ
  pub sample_data : List ℕ
  pub sample_starts : List ℕ
  pub read_index : ℕ
  pub write_index : ℕ

abbrev pub new_audio_block_ring : ℕ → ℕ → ℕ → AudioBlockRing
new_audio_block_ring num_channels block_size capacity = record {
  num_channels = num_channels;
  block_size = block_size;
  capacity = capacity;
  sample_data = replicate (capacity * num_channels * block_size) 0;
  sample_starts = replicate capacity 0;
  read_index = 0;
  write_index = 0;
}

-- The start of a channel's samples in a slot of the ring.
abbrev pub channel_at : AudioBlockRing → ℕ → ℕ → ℕ
channel_at r slot ch = slot * r.num_channels * r.block_size + ch * r.block_size

-- What the loops over `outputs` leave there, for the first `count` channels.
abbrev pub pointers : AudioBlockRing → ℕ → ℕ → List ℕ
pointers r slot zero = []
pointers r slot (suc ch) = pointers r slot ch ++ (channel_at r slot ch ∷ [])

unfoldable pub begin_write : AudioBlockRing → Option (List ℕ)
begin_write r =
    let next = (r.write_index + 1) % r.capacity in
    if next == r.read_index then none else some (pointers r r.write_index r.num_channels)

-- The two stores of `endWrite`.
abbrev pub stamp_start : AudioBlockRing → ℕ → AudioBlockRing
stamp_start r sample_start = record r {
  sample_starts = set r.sample_starts r.write_index sample_start;
}

abbrev pub publish_block : AudioBlockRing → AudioBlockRing
publish_block r = record r { write_index = (r.write_index + 1) % r.capacity }

unfoldable pub end_write : AudioBlockRing → ℕ → AudioBlockRing
end_write r sample_start = publish_block (stamp_start r sample_start)

unfoldable pub begin_read : AudioBlockRing → Option (List ℕ × ℕ)
begin_read r =
    if r.read_index == r.write_index
    then none
    else some (pointers r r.read_index r.num_channels, get_or r.sample_starts r.read_index 0)

unfoldable pub end_read : AudioBlockRing → AudioBlockRing
end_read r = record r { read_index = (r.read_index + 1) % r.capacity }

-- The arguments but the pointers, and the sample for a channel and a frame.
abbrev pub RenderCallback : Type 0
RenderCallback = (num_channels num_frames sample_start : ℕ) → (channel frame : ℕ) → ℕ

pub record RenderAheadEngine : Type 0 where
  pub ring : AudioBlockRing
  pub render_callback : Option RenderCallback
  pub running : Bool
  pub underruns : ℕ
  pub sample_rate : ℕ
  pub sample_counter : ℕ

abbrev pub new_render_ahead_engine : ℕ → ℕ → ℕ → RenderAheadEngine
new_render_ahead_engine num_channels block_size capacity = record {
  ring = new_audio_block_ring num_channels block_size capacity;
  render_callback = none;
  running = false;
  underruns = 0;
  sample_rate = 0;
  sample_counter = 0;
}

abbrev pub set_render_callback : RenderAheadEngine → RenderCallback → RenderAheadEngine
set_render_callback e callback = record e { render_callback = some callback }

unfoldable pub start : RenderAheadEngine → ℕ → RenderAheadEngine
start e sample_rate =
    if e.running
    then e
    else record e { running = true; sample_rate = sample_rate; sample_counter = 0 }

unfoldable pub stop : RenderAheadEngine → RenderAheadEngine
stop e = record e { running = false }

-- `count` samples from a pointer on.
abbrev pub samples : List ℕ → ℕ → ℕ → List ℕ
samples xs at zero = []
samples xs at (suc count) = samples xs at count ++ (get_or xs (at + count) 0 ∷ [])

-- `count` samples written from a pointer on.
abbrev pub fill : List ℕ → ℕ → ℕ → (ℕ → ℕ) → List ℕ
fill xs at zero f = xs
fill xs at (suc count) f = set (fill xs at count f) (at + count) (f count)

-- The first `count` channels written.
abbrev pub fill_channels : List ℕ → List ℕ → ℕ → ℕ → (ℕ → ℕ → ℕ) → List ℕ
fill_channels xs outputs zero num_frames f = xs
fill_channels xs outputs (suc ch) num_frames f =
    fill (fill_channels xs outputs ch num_frames f) (get_or outputs ch 0) num_frames (f ch)

-- The first `count` channels read.
abbrev pub read_channels : List ℕ → List ℕ → ℕ → ℕ → List (List ℕ)
read_channels xs outputs zero num_frames = []
read_channels xs outputs (suc ch) num_frames =
    read_channels xs outputs ch num_frames ++ (samples xs (get_or outputs ch 0) num_frames ∷ [])

-- What the loop writes: the callback's samples, or silence.
abbrev pub rendered : RenderAheadEngine → ℕ → ℕ → ℕ
rendered e = elim e.render_callback [
  | none ↦ λ ch frame. 0
  | some callback ↦ callback e.ring.num_channels e.ring.block_size e.sample_counter
]

-- A turn with what `beginWrite` gave.
abbrev pub render_into : RenderAheadEngine → Option (List ℕ) → RenderAheadEngine
render_into e none = e
render_into e (some outputs) = record e {
  ring =
      end_write
        (record (e.ring) {
          sample_data =
              fill_channels e.ring.sample_data outputs e.ring.num_channels e.ring.block_size
                (rendered e);
        })
        e.sample_counter;
  sample_counter = e.sample_counter + e.ring.block_size;
}

-- One turn of the loop of `renderLoop`.
unfoldable pub render_turn : RenderAheadEngine → RenderAheadEngine
render_turn e = render_into e (begin_write e.ring)

-- What is left in the buffers of the caller, each channel a list.
abbrev pub silence : ℕ → ℕ → List (List ℕ)
silence num_channels num_frames = replicate num_channels (replicate num_frames 0)

abbrev underrun : RenderAheadEngine → ℕ → ℕ → ℕ → Bool × List (List ℕ) × ℕ × RenderAheadEngine
underrun e num_channels num_frames sample_start =
    (false, silence num_channels num_frames, sample_start, record e { underruns = e.underruns + 1 })

-- The rest of a call with what `beginRead` gave.
abbrev pub read_from :
    RenderAheadEngine
    → ℕ
    → ℕ
    → ℕ
    → Option (List ℕ × ℕ)
    → Bool × List (List ℕ) × ℕ × RenderAheadEngine
read_from e num_channels num_frames sample_start none =
    underrun e num_channels num_frames sample_start
read_from e num_channels num_frames sample_start (some (outputs, start)) = (
  true,
  read_channels e.ring.sample_data outputs num_channels num_frames,
  start,
  record e { ring = end_read e.ring },
)

unfoldable pub read_block :
    RenderAheadEngine → ℕ → ℕ → ℕ → Bool × List (List ℕ) × ℕ × RenderAheadEngine
read_block e num_channels num_frames sample_start =
    if (num_channels == e.ring.num_channels) && (num_frames == e.ring.block_size)
    then read_from e num_channels num_frames sample_start (begin_read e.ring)
    else underrun e num_channels num_frames sample_start
