-- ===== src/RenderAhead/Waiting.antt =====
-- The blocks that wait in the ring of apps/render_ahead.cpp, and what its four calls do to them.
use unidaw.Base.{
  length-set, ℕ, zero, suc, ◌+◌, ◌-◌, ◌%◌, ◌<◌, ◌≤◌, ◌≡◌, refl, sym, ap, ap₂, ◌∙◌, ◌≢◌, List, [],
  ◌∷◌, ◌++◌, arith, length, set, get_or, get_or-set_self, get_or-set_ne,
}
use unidaw.Base.Window.{mod_cases, step-ne, around, around-ext, around-pop}
use unidaw.Ring.Refine.{write_at, used_write, used_read}
use unidaw.RenderAhead.{AudioBlockRing, stamp_start, publish_block, end_write, end_read, channel_at}
use unidaw.RenderAhead.Cells.{other_slot, samples-set}
use unidaw.RenderAhead.Threads.{Block, channels, block_at}

-- The blocks between the indices, oldest first.
abbrev pub filled : AudioBlockRing → ℕ
filled r = (r.write_index + r.capacity - r.read_index) % r.capacity

abbrev pub waiting : AudioBlockRing → List Block
waiting r = around r.capacity (block_at r) r.read_index (filled r)

pub record Shape (r : AudioBlockRing) : Type 0 where
  pub read_in : r.read_index < r.capacity
  pub write_in : r.write_index < r.capacity
  pub starts : length r.sample_starts ≡ r.capacity

-- A write to a channel of one slot leaves the other slots.
pub channels-set :
    (r : AudioBlockRing) (s t ch i x n : ℕ)
    → s ≢ t
    → ch < r.num_channels
    → i < r.block_size
    → n ≤ r.num_channels
    → channels (record r { sample_data = set r.sample_data (channel_at r s ch + i) x }) t n
      ≡ channels r t n
channels-set r s t ch i x zero ne hc hi le = refl
channels-set r s t ch i x (suc n) ne hc hi le =
    ap₂ (λ ys v. ys ++ (v ∷ [])) (channels-set r s t ch i x n ne hc hi (omega arith))
      (samples-set r.sample_data (channel_at r t n) r.block_size (channel_at r s ch + i) x
        (λ j hj. other_slot r s t ch n i j ne hc (omega arith) hi hj))

module _ {r : AudioBlockRing} (v : Shape r) where
  pub filled_in : filled r < r.capacity
  filled_in =
      ground (arith, v.read_in, mod_cases (r.write_index + r.capacity - r.read_index) r.capacity)

  pub at_write : (r.read_index + filled r) % r.capacity ≡ r.write_index
  at_write = write_at r.capacity r.read_index r.write_index v.read_in v.write_in

  -- The slot that is written holds no block that waits.
  pub not_waiting : (j : ℕ) → j < filled r → r.write_index ≢ (r.read_index + j) % r.capacity
  not_waiting j lt e =
      step-ne r.capacity r.read_index j (filled r) v.read_in lt filled_in (sym e ∙ sym at_write)

  pub read-ne-write : filled r ≢ 0 → r.write_index ≢ r.read_index
  read-ne-write ne e = ground (
    arith,
    v.read_in,
    v.write_in,
    mod_cases (r.write_index + r.capacity - r.read_index) r.capacity,
  )

  pub waiting-set :
      (ch i x : ℕ)
      → ch < r.num_channels
      → i < r.block_size
      → waiting (record r { sample_data = set r.sample_data (channel_at r r.write_index ch + i) x })
        ≡ waiting r
  waiting-set ch i x hc hi =
      around-ext r.capacity
        (block_at
          (record r { sample_data = set r.sample_data (channel_at r r.write_index ch + i) x }))
        (block_at r) r.read_index (filled r)
        (λ j lt.
          ap (λ cs. (get_or r.sample_starts ((r.read_index + j) % r.capacity) 0, cs))
            (channels-set r r.write_index ((r.read_index + j) % r.capacity) ch i x r.num_channels
              (not_waiting j lt) hc hi (omega arith)))

  pub filled-publish_block : filled r < r.capacity - 1 → filled (publish_block r) ≡ suc (filled r)
  filled-publish_block lt = used_write r.capacity r.read_index r.write_index v.read_in v.write_in lt

  -- The start of the slot that is written is not that of a block that waits.
  pub waiting-stamp_start : (k : ℕ) → waiting (stamp_start r k) ≡ waiting r
  waiting-stamp_start k =
      around-ext r.capacity (block_at (stamp_start r k)) (block_at r) r.read_index (filled r)
        (λ j lt.
          ap (λ n. (n, channels r ((r.read_index + j) % r.capacity) r.num_channels))
            (get_or-set_ne r.sample_starts k 0 (not_waiting j lt)))

  pub waiting-publish_block :
      filled r < r.capacity - 1
      → waiting (publish_block r) ≡ waiting r ++ (block_at r r.write_index ∷ [])
  waiting-publish_block lt =
      ap (around r.capacity (block_at r) r.read_index) (filled-publish_block lt)
      ∙ ap (λ i. waiting r ++ (block_at r i ∷ [])) at_write

  pub start-stamp_start : (k : ℕ) → get_or (stamp_start r k).sample_starts r.write_index 0 ≡ k
  start-stamp_start k =
      get_or-set_self r.sample_starts r.write_index k 0 (omega (arith, v.starts, v.write_in))

  pub filled-end_read : filled r ≢ 0 → suc (filled (end_read r)) ≡ filled r
  unfolding end_read
  filled-end_read ne = used_read r.capacity r.read_index r.write_index v.read_in v.write_in ne

  pub waiting-end_read : filled r ≢ 0 → waiting r ≡ block_at r r.read_index ∷ waiting (end_read r)
  unfolding end_read
  waiting-end_read ne =
      ap (around r.capacity (block_at r) r.read_index) (sym (filled-end_read ne))
      ∙ around-pop r.capacity (block_at r) r.read_index (filled (end_read r)) v.read_in

pub stamp_start-Shape : (r : AudioBlockRing) (k : ℕ) → Shape r → Shape (stamp_start r k)
stamp_start-Shape r k v = record {
  read_in = v.read_in;
  write_in = v.write_in;
  starts = length-set r.sample_starts r.write_index k ∙ v.starts;
}

pub waiting-end_write :
    {r : AudioBlockRing} (v : Shape r) (k : ℕ)
    → filled r < r.capacity - 1
    → waiting (end_write r k) ≡ waiting r ++ ((k, channels r r.write_index r.num_channels) ∷ [])
unfolding end_write
waiting-end_write {r} v k lt =
    waiting-publish_block (stamp_start-Shape r k v) lt
    ∙ ap₂ (λ ws n. ws ++ ((n, channels r r.write_index r.num_channels) ∷ []))
        (waiting-stamp_start v k) (start-stamp_start v k)
