-- ===== src/RenderAhead/Queue.antt =====
-- A turn of `renderLoop` and a call of `readBlock` (apps/render_ahead.cpp) as what they do to the
-- queue of blocks.
use unidaw.Base.{
  ℕ, zero, suc, ◌+◌, ◌-◌, ◌<◌, ◌≤◌, ◌≡◌, refl, sym, ap, ap₂, subst, ◌∙◌, List, [], ◌∷◌, ◌++◌, none,
  some, arith, length, length-set, get_or, if◌then◌else◌, ◌==◌, ◌&&◌, Option, Bool, true, false,
  ltb, Bool-cases, ltb→lt, ==_iff, inl, inr,
}
use unidaw.Base.Window.{mod_cases, length-around, around}
use unidaw.RenderAhead.{
  AudioBlockRing, RenderAheadEngine, begin_write, end_write, begin_read, end_read, channel_at,
  pointers, fill, fill_channels, rendered, silence, render_into, render_turn, read_from, read_block,
}
use unidaw.RenderAhead.Threads.{Block, block_at}
use unidaw.RenderAhead.Locals.{==-ne}
use unidaw.RenderAhead.Waiting.{
  filled, waiting, Shape, waiting-set, waiting-end_write, waiting-end_read,
}
use unidaw.RenderAhead.Copies.{
  tabulate, length-fill, holding, whole, placed, fill_channels-eq-placed, channels-placed,
  read_channels-eq-channels,
}

module _ {r : AudioBlockRing} (v : Shape r) where
  waiting-fill :
      (xs : List ℕ) (ch n : ℕ) (g : ℕ → ℕ)
      → ch < r.num_channels
      → n ≤ r.block_size
      → waiting (holding r (fill xs (channel_at r r.write_index ch) n g)) ≡ waiting (holding r xs)
  waiting-fill xs ch zero g hc le = refl
  waiting-fill xs ch (suc n) g hc le =
      waiting-set {r = holding r (fill xs (channel_at r r.write_index ch) n g)}
        (record { read_in = v.read_in; write_in = v.write_in; starts = v.starts }) ch n (g n) hc
        (omega arith)
      ∙ waiting-fill xs ch n g hc (omega arith)

  waiting-placed :
      (xs : List ℕ) (n : ℕ) (f : ℕ → ℕ → ℕ)
      → n ≤ r.num_channels
      → waiting (holding r (placed r r.write_index xs n f)) ≡ waiting (holding r xs)
  waiting-placed xs zero f le = refl
  waiting-placed xs (suc n) f le =
      waiting-fill (placed r r.write_index xs n f) n r.block_size (f n) (omega arith) (omega arith)
      ∙ waiting-placed xs n f (omega arith)

  begin_write_lem : begin_write r ≡ (
      if ltb (filled r) (r.capacity - 1)
      then some (pointers r r.write_index r.num_channels)
      else none)
  unfolding begin_write
  begin_write_lem = ground (
    arith,
    v.read_in,
    v.write_in,
    mod_cases (r.write_index + 1) r.capacity,
    mod_cases (r.write_index + r.capacity - r.read_index) r.capacity,
  )

  begin_read_lem : begin_read r ≡ (
      if filled r == 0
      then none
      else some (pointers r r.read_index r.num_channels, get_or r.sample_starts r.read_index 0))
  unfolding begin_read
  begin_read_lem = ground (
    arith,
    v.read_in,
    v.write_in,
    mod_cases (r.write_index + r.capacity - r.read_index) r.capacity,
  )

-- The usable engines.
pub record IsReady (e : RenderAheadEngine) : Type 0 where
  pub shape : Shape e.ring
  pub memory : length e.ring.sample_data ≡ whole e.ring

-- What the callback renders for the next block.
abbrev pub next_block : RenderAheadEngine → Block
next_block e = (
  e.sample_counter,
  tabulate e.ring.num_channels (λ ch. tabulate e.ring.block_size (rendered e ch)),
)

-- A turn of the loop of `renderLoop` puts the next block behind those that wait, where they are fewer
-- than the capacity less one, and else leaves them.
render_turn_lem :
    (e : RenderAheadEngine)
    → IsReady e
    → waiting (render_turn e).ring ≡ (
        if ltb (length (waiting e.ring)) (e.ring.capacity - 1)
        then waiting e.ring ++ (next_block e ∷ [])
        else waiting e.ring)
unfolding render_turn
render_turn_lem e h =
    ap (λ o. waiting (render_into e o).ring) (begin_write_lem h.shape)
    ∙ go (ltb (filled e.ring) (e.ring.capacity - 1)) refl
    ∙ ap
        (λ n.
          if ltb n (e.ring.capacity - 1)
          then waiting e.ring ++ (next_block e ∷ [])
          else waiting e.ring)
        (sym (length-around e.ring.capacity (block_at e.ring) e.ring.read_index (filled e.ring)))
  where
    filled_ring : List ℕ
    filled_ring =
        placed e.ring e.ring.write_index e.ring.sample_data e.ring.num_channels (rendered e)

    go :
        (b : Bool)
        → ltb (filled e.ring) (e.ring.capacity - 1) ≡ b
        → waiting
            (render_into e (
              if b
              then some (pointers e.ring e.ring.write_index e.ring.num_channels)
              else none)).ring
          ≡ (if b then waiting e.ring ++ (next_block e ∷ []) else waiting e.ring)
    go false p = refl
    go true p =
        ap (λ xs. waiting (end_write (holding e.ring xs) e.sample_counter))
          (fill_channels-eq-placed e.ring e.ring.write_index e.ring.sample_data e.ring.num_channels
            (rendered e) (omega arith))
        ∙ waiting-end_write {r = holding e.ring filled_ring}
            (record {
              read_in = h.shape.read_in;
              write_in = h.shape.write_in;
              starts = h.shape.starts;
            })
            e.sample_counter (ltb→lt (filled e.ring) (e.ring.capacity - 1) p)
        ∙ ap₂ (λ ws cs. ws ++ ((e.sample_counter, cs) ∷ []))
            (waiting-placed h.shape e.ring.sample_data e.ring.num_channels (rendered e)
              (omega arith))
            (channels-placed e.ring e.ring.write_index e.ring.sample_data e.ring.num_channels
              (rendered e) h.shape.write_in (omega arith) h.memory)

-- The queue's oldest block, in the form of a call of `readBlock`.
abbrev pub oldest : RenderAheadEngine → ℕ → List Block → Bool × List (List ℕ) × ℕ × List Block
oldest e start [] = (false, silence e.ring.num_channels e.ring.block_size, start, [])
oldest e start (b ∷ q) = (true, b.1, b.0, q)

-- A call of `readBlock` in the shape of the ring gives the oldest block that waits, with its start, and
-- takes it from the queue; where none waits, it says so and gives silence.
read_block_lem :
    (e : RenderAheadEngine) (start : ℕ)
    → IsReady e
    → let (ok, outputs, from, after) = read_block e e.ring.num_channels e.ring.block_size start in
      (ok, outputs, from, waiting after.ring) ≡ oldest e start (waiting e.ring)
unfolding read_block
read_block_lem e start h =
    ap₂
      (λ a b. seen (
        if a && b
        then read_from e e.ring.num_channels e.ring.block_size start (begin_read e.ring)
        else read_from e e.ring.num_channels e.ring.block_size start none))
      ((==_iff e.ring.num_channels e.ring.num_channels).1 refl)
      ((==_iff e.ring.block_size e.ring.block_size).1 refl)
    ∙ ap (λ o. seen (read_from e e.ring.num_channels e.ring.block_size start o))
        (begin_read_lem h.shape)
    ∙ go (filled e.ring == 0) refl
  where
    seen : Bool × List (List ℕ) × ℕ × RenderAheadEngine → Bool × List (List ℕ) × ℕ × List Block
    seen (ok, outputs, from, after) = (ok, outputs, from, waiting after.ring)

    go :
        (b : Bool)
        → (filled e.ring == 0) ≡ b
        → seen (
            read_from e e.ring.num_channels e.ring.block_size start (
              if b
              then none
              else some (
                pointers e.ring e.ring.read_index e.ring.num_channels,
                get_or e.ring.sample_starts e.ring.read_index 0,
              )))
          ≡ oldest e start (waiting e.ring)
    go true p =
        subst
          (λ n.
            (
              false,
              silence e.ring.num_channels e.ring.block_size,
              start,
              around e.ring.capacity (block_at e.ring) e.ring.read_index n,
            )
            ≡ oldest e start (around e.ring.capacity (block_at e.ring) e.ring.read_index n))
          (sym ((==_iff (filled e.ring) 0).0 p)) refl
    go false p =
        ap
          (λ cs.
            (true, cs, get_or e.ring.sample_starts e.ring.read_index 0, waiting (end_read e.ring)))
          (read_channels-eq-channels e.ring e.ring.read_index e.ring.num_channels (omega arith))
        ∙ ap (oldest e start) (sym (waiting-end_read h.shape (==-ne (filled e.ring) 0 p)))

length-fill_channels :
    (xs outputs : List ℕ) (n num_frames : ℕ) (f : ℕ → ℕ → ℕ)
    → length (fill_channels xs outputs n num_frames f) ≡ length xs
length-fill_channels xs outputs zero frames f = refl
length-fill_channels xs outputs (suc n) frames f =
    length-fill (fill_channels xs outputs n frames f) (get_or outputs n 0) frames (f n)
    ∙ length-fill_channels xs outputs n frames f

-- An engine stays usable.
render_turn-IsReady : (e : RenderAheadEngine) → IsReady e → IsReady (render_turn e)
unfolding render_turn end_write
render_turn-IsReady e h = go (begin_write e.ring)
  where
    go : (o : Option (List ℕ)) → IsReady (render_into e o)
    go none = h
    go (some outputs) = record {
      shape = record {
        read_in = h.shape.read_in;
        write_in = omega (arith, h.shape.read_in);
        starts =
            length-set e.ring.sample_starts e.ring.write_index e.sample_counter ∙ h.shape.starts;
      };
      memory =
          length-fill_channels e.ring.sample_data outputs e.ring.num_channels e.ring.block_size
            (rendered e)
          ∙ h.memory;
    }

end_read-IsReady :
    (e : RenderAheadEngine) → IsReady e → IsReady (record e { ring = end_read e.ring })
unfolding end_read
end_read-IsReady e h = record {
  shape = record {
    read_in = omega (arith, h.shape.read_in);
    write_in = h.shape.write_in;
    starts = h.shape.starts;
  };
  memory = h.memory;
}

read_block-IsReady :
    (e : RenderAheadEngine) (start : ℕ)
    → IsReady e
    → IsReady (read_block e e.ring.num_channels e.ring.block_size start).3
unfolding read_block
read_block-IsReady e start h =
    elim (Bool-cases
      ((e.ring.num_channels == e.ring.num_channels) && (e.ring.block_size == e.ring.block_size))) [
        | inl same ↦ rw same (go (begin_read e.ring))
        | inr other ↦ rw other (record { shape = h.shape; memory = h.memory })
      ]
  where
    go :
        (o : Option (List ℕ × ℕ))
        → IsReady (read_from e e.ring.num_channels e.ring.block_size start o).3
    go none = record { shape = h.shape; memory = h.memory }
    go (some (outputs, from)) = end_read-IsReady e h

-- On an engine whose ring is usable, a turn of the loop of `renderLoop` puts the next block, with the
-- samples of the callback, behind the blocks that wait, where they are fewer than the capacity less
-- one, and else leaves them. A call of `readBlock` in the shape of the ring gives the oldest block
-- that waits, with its start, and takes it from the queue; where none waits, it says so and gives
-- silence. The engine stays usable.
pub queue_lem :
    (e : RenderAheadEngine) (start : ℕ)
    → IsReady e
    → let (ok, outputs, from, after) = read_block e e.ring.num_channels e.ring.block_size start in
      (waiting (render_turn e).ring ≡ (
        if ltb (length (waiting e.ring)) (e.ring.capacity - 1)
        then waiting e.ring ++ (next_block e ∷ [])
        else waiting e.ring))
      × ((ok, outputs, from, waiting after.ring) ≡ oldest e start (waiting e.ring))
      × IsReady (render_turn e)
      × IsReady after
queue_lem e start h = (
  render_turn_lem e h,
  read_block_lem e start h,
  render_turn-IsReady e h,
  read_block-IsReady e start h,
)
