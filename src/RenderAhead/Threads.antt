-- ===== src/RenderAhead/Threads.antt =====
-- The thread of `renderLoop` and the audio callback in `readBlock` (apps/render_ahead.cpp),
-- interleaved at every access to memory that they share. The loads and stores take effect in one
-- order, as the acquire and release marks of the code are there to ensure.
use unidaw.Base.{◌≢◌, ℕ, zero, suc, ◌+◌, ◌<◌, ◌≡◌, List, [], ◌∷◌, ◌++◌, some, length, set, get_or}
use unidaw.RenderAhead.{
  AudioBlockRing, new_audio_block_ring, begin_write, stamp_start, publish_block, pointers, end_read,
  samples, channel_at,
}

-- The start of a block and the samples of each channel.
abbrev pub Block : Type 0
Block = ℕ × List (List ℕ)

-- Where `renderLoop` stands, with `writePointers_`: before its tests, in the callback, and between the
-- two stores of `endWrite`.
pub data Renderer : Type 0 where
  idle : Renderer
  rendering : (outputs : List ℕ) → Renderer
  stamped : Renderer

-- Where `readBlock` stands, with `readPointers_`: before its test, before `sampleStartOut` is loaded,
-- and in the copies, with the channels that are copied and the samples of the next one.
pub data Reader : Type 0 where
  idle : Reader
  found : (pointers : List ℕ) → Reader
  copying : (pointers : List ℕ) → (sample_start : ℕ) → List (List ℕ) → (partial : List ℕ) → Reader

-- `sent` has the start that was rendered and the samples as they stood in memory when
-- `endWrite` published them, `got` what the calls
-- of `readBlock` that returned true gave.
pub record System : Type 0 where
  pub ring : AudioBlockRing
  pub sample_counter : ℕ
  pub renderer : Renderer
  pub reader : Reader
  pub sent : List Block
  pub got : List Block

-- The first `count` channels of a slot.
abbrev pub channels : AudioBlockRing → ℕ → ℕ → List (List ℕ)
channels r slot zero = []
channels r slot (suc ch) =
    channels r slot ch ++ (samples r.sample_data (channel_at r slot ch) r.block_size ∷ [])

abbrev pub block_at : AudioBlockRing → ℕ → Block
block_at r slot = (get_or r.sample_starts slot 0, channels r slot r.num_channels)

pub data Step (s : System) : System → Type 0 where
  -- `beginWrite`, where it finds a free slot.
  begin :
      (outputs : List ℕ)
      → s.renderer ≡ Renderer.idle
      → begin_write s.ring ≡ some outputs
      → Step s (record s { renderer = rendering outputs })
  -- The callback, or `std::fill`, stores a sample.
  store :
      (outputs : List ℕ) (ch frame x : ℕ)
      → s.renderer ≡ rendering outputs
      → ch < s.ring.num_channels
      → frame < s.ring.block_size
      → Step s (record s {
        ring = record (s.ring) {
          sample_data = set s.ring.sample_data (get_or outputs ch 0 + frame) x;
        };
      })
  -- `sampleStarts_[write] = sampleStart`
  stamp :
      (outputs : List ℕ)
      → s.renderer ≡ rendering outputs
      → Step s (record s { ring = stamp_start s.ring s.sample_counter; renderer = stamped })
  -- `writeIndex_.store(...)`, and the counter of the thread.
  publish :
      s.renderer ≡ stamped
      → Step s (record s {
        ring = publish_block s.ring;
        sample_counter = s.sample_counter + s.ring.block_size;
        renderer = Renderer.idle;
        sent =
            s.sent
            ++ ((s.sample_counter, channels s.ring s.ring.write_index s.ring.num_channels) ∷ []);
      })
  -- The test of `beginRead`, where it finds a block.
  seek :
      s.reader ≡ Reader.idle
      → s.ring.read_index ≢ s.ring.write_index
      → Step s (record s { reader = found (pointers s.ring s.ring.read_index s.ring.num_channels) })
  -- `sampleStart = sampleStarts_[read]`
  take_start :
      (outputs : List ℕ)
      → s.reader ≡ found outputs
      → Step s (record s {
        reader = copying outputs (get_or s.ring.sample_starts s.ring.read_index 0) [] [];
      })
  -- `std::copy` loads the next sample of a channel.
  copy :
      (outputs : List ℕ) (sample_start : ℕ) (done : List (List ℕ)) (partial : List ℕ)
      → s.reader ≡ copying outputs sample_start done partial
      → length done < s.ring.num_channels
      → length partial < s.ring.block_size
      → Step s (record s {
        reader = copying outputs sample_start done (
            partial
            ++ (get_or s.ring.sample_data (get_or outputs (length done) 0 + length partial) 0
                ∷ []));
      })
  -- A channel is copied.
  next_channel :
      (outputs : List ℕ) (sample_start : ℕ) (done : List (List ℕ)) (partial : List ℕ)
      → s.reader ≡ copying outputs sample_start done partial
      → length done < s.ring.num_channels
      → length partial ≡ s.ring.block_size
      → Step s (record s { reader = copying outputs sample_start (done ++ (partial ∷ [])) [] })
  -- `endRead`.
  release :
      (outputs : List ℕ) (sample_start : ℕ) (done : List (List ℕ)) (partial : List ℕ)
      → s.reader ≡ copying outputs sample_start done partial
      → length done ≡ s.ring.num_channels
      → Step s (record s {
        ring = end_read s.ring;
        reader = Reader.idle;
        got = s.got ++ ((sample_start, done) ∷ []);
      })

pub data Reach (s : System) : System → Type 0 where
  here : Reach s s
  next : {t u : System} → Reach s t → Step t u → Reach s u

-- A new ring and no thread in it.
abbrev pub fresh : ℕ → ℕ → ℕ → System
fresh num_channels block_size capacity = record {
  ring = new_audio_block_ring num_channels block_size capacity;
  sample_counter = 0;
  renderer = Renderer.idle;
  reader = Reader.idle;
  sent = [];
  got = [];
}
