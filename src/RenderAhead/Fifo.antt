-- ===== src/RenderAhead/Fifo.antt =====
-- Whatever the threads do, the blocks of apps/render_ahead.cpp come out whole, in order and once.
use mathlib.Core.List.{append_assoc}
use unidaw.Base.{
  ℕ, ◌+◌, ◌-◌, ◌*◌, ◌<◌, ◌≡◌, sym, ap, subst, ◌∙◌, List, [], ◌∷◌, ◌++◌, arith, length,
  length-append, length-replicate, set, get_or, get_or-set_ne, ◌≢◌, ◌≤◌, ◌⊎◌, refl, inl, inr,
}
use unidaw.Base.Window.{mod_cases, around, length-around}
use unidaw.RenderAhead.{AudioBlockRing, stamp_start, publish_block, samples, channel_at}
use unidaw.RenderAhead.Cells.{get-pointers, other_slot, samples-set}
use unidaw.RenderAhead.Threads.{
  Block, Renderer, rendering, stamped, Reader, found, copying, System, channels, block_at, Step,
  begin, store, stamp, publish, seek, take_start, copy, next_channel, release, Reach, here, next,
  fresh,
}
use unidaw.RenderAhead.Waiting.{
  filled, waiting, channels-set, waiting-set, filled_in, read-ne-write, filled-publish_block,
  waiting-stamp_start, waiting-publish_block, start-stamp_start, stamp_start-Shape,
}
use unidaw.RenderAhead.Locals.{RendererInv, ReaderInv, begin_write-some}
use unidaw.RenderAhead.Invariant.{
  Consecutive, Consecutive-append, Inv, locals, seek-Inv, take_start-Inv, copy-Inv,
  next_channel-Inv, release-Inv,
}

module _ {s : System} (inv : Inv s) where
  open inv use {shape}

  -- The next ring, where only the samples differ.
  store-Inv :
      (outputs : List ℕ) (ch i x : ℕ)
      → s.renderer ≡ rendering outputs
      → ch < s.ring.num_channels
      → i < s.ring.block_size
      → Inv (record s {
        ring = record (s.ring) { sample_data = set s.ring.sample_data (get_or outputs ch 0 + i) x };
      })
  store-Inv outputs ch i x p hc hi =
      subst
        (λ k.
          Inv (record s {
            ring = record (s.ring) { sample_data = set s.ring.sample_data (k + i) x };
          }))
        (sym place)
        (record {
          shape = record {
            read_in = shape.read_in;
            write_in = shape.write_in;
            starts = shape.starts;
          };
          rendering_ok = kept s.renderer inv.rendering_ok;
          reading_ok = unread s.reader inv.reading_ok;
          queue = inv.queue ∙ ap (λ xs. s.got ++ xs) (sym (waiting-set shape ch i x hc hi));
          counted = inv.counted;
          in_turn = inv.in_turn;
        })
    where
      mine : RendererInv s.ring s.sample_counter (rendering outputs)
      mine = subst (RendererInv s.ring s.sample_counter) p inv.rendering_ok

      place : get_or outputs ch 0 ≡ channel_at s.ring s.ring.write_index ch
      place =
          ap (λ o. get_or o ch 0) mine.0
          ∙ get-pointers s.ring s.ring.write_index s.ring.num_channels ch hc

      stored : AudioBlockRing
      stored = record (s.ring) {
        sample_data = set s.ring.sample_data (channel_at s.ring s.ring.write_index ch + i) x;
      }

      kept :
          (q : Renderer)
          → RendererInv s.ring s.sample_counter q
          → RendererInv stored s.sample_counter q
      kept Renderer.idle k = tt
      kept (rendering o) k = k
      kept stamped k = k

      loaded :
          (at n : ℕ)
          → filled s.ring ≢ 0
          → n ≤ s.ring.block_size
          → (n ≡ 0) ⊎ (at < s.ring.num_channels)
          → samples s.ring.sample_data (channel_at s.ring s.ring.read_index at) n
            ≡ samples stored.sample_data (channel_at s.ring s.ring.read_index at) n
      loaded at n some_wait le (inl z) =
          subst
            (λ m.
              samples s.ring.sample_data (channel_at s.ring s.ring.read_index at) m
              ≡ samples stored.sample_data (channel_at s.ring s.ring.read_index at) m)
            (sym z) refl
      loaded at n some_wait le (inr lt) = sym (
          samples-set s.ring.sample_data (channel_at s.ring s.ring.read_index at) n
            (channel_at s.ring s.ring.write_index ch + i) x
            (λ j hj.
              other_slot s.ring s.ring.write_index s.ring.read_index ch at i j
                (read-ne-write shape some_wait) hc lt hi (omega arith)))

      unread : (c : Reader) → ReaderInv s.ring c → ReaderInv stored c
      unread Reader.idle k = tt
      unread (found o) k = k
      unread (copying o start done partial) k = (
        k.0,
        k.1,
        k.2,
        k.3,
        k.4
            ∙ sym (
                channels-set s.ring s.ring.write_index s.ring.read_index ch i x (length done)
                  (read-ne-write shape k.0) hc hi k.3),
        k.5,
        k.6,
        k.7 ∙ loaded (length done) (length partial) k.0 k.5 k.6,
      )

  stamp-Inv :
      (outputs : List ℕ)
      → s.renderer ≡ rendering outputs
      → Inv (record s { ring = stamp_start s.ring s.sample_counter; renderer = stamped })
  stamp-Inv outputs p = record {
    shape = stamp_start-Shape s.ring s.sample_counter shape;
    rendering_ok = (start-stamp_start shape s.sample_counter, mine.1);
    reading_ok = unread s.reader inv.reading_ok;
    queue = inv.queue ∙ ap (λ xs. s.got ++ xs) (sym (waiting-stamp_start shape s.sample_counter));
    counted = inv.counted;
    in_turn = inv.in_turn;
  }
    where
      mine : RendererInv s.ring s.sample_counter (rendering outputs)
      mine = subst (RendererInv s.ring s.sample_counter) p inv.rendering_ok

      unread : (c : Reader) → ReaderInv s.ring c → ReaderInv (stamp_start s.ring s.sample_counter) c
      unread Reader.idle k = tt
      unread (found o) k = k
      unread (copying o start done partial) k = (
        k.0,
        k.1,
        k.2 ∙ sym (get_or-set_ne s.ring.sample_starts s.sample_counter 0 (read-ne-write shape k.0)),
        k.3,
        k.4,
        k.5,
        k.6,
        k.7,
      )

  publish-Inv :
      s.renderer ≡ stamped
      → Inv (record s {
        ring = publish_block s.ring;
        sample_counter = s.sample_counter + s.ring.block_size;
        renderer = Renderer.idle;
        sent =
            s.sent
            ++ ((s.sample_counter, channels s.ring s.ring.write_index s.ring.num_channels) ∷ []);
      })
  publish-Inv p = record {
    shape = record {
      read_in = shape.read_in;
      write_in = omega (arith, shape.read_in);
      starts = shape.starts;
    };
    rendering_ok = tt;
    reading_ok = unread s.reader inv.reading_ok;
    queue =
        ap (λ xs. xs ++ (block ∷ [])) inv.queue
        ∙ append_assoc s.got (waiting s.ring) (block ∷ [])
        ∙ ap (λ xs. s.got ++ xs)
            (sym (
              waiting-publish_block shape mine.1
              ∙ ap
                  (λ k.
                    waiting s.ring
                    ++ ((k, channels s.ring s.ring.write_index s.ring.num_channels) ∷ []))
                  mine.0));
    counted = grown;
    in_turn =
        Consecutive-append s.ring.block_size 0 s.sent block inv.in_turn
          (omega (arith, inv.counted));
  }
    where
      mine : RendererInv s.ring s.sample_counter stamped
      mine = subst (RendererInv s.ring s.sample_counter) p inv.rendering_ok

      block : Block
      block = (s.sample_counter, channels s.ring s.ring.write_index s.ring.num_channels)

      grown :
          s.sample_counter + s.ring.block_size ≡ length (s.sent ++ (block ∷ [])) * s.ring.block_size
      grown =
          omega (
            arith,
            inv.counted,
            ap (λ n. n * s.ring.block_size) (length-append s.sent (block ∷ [])),
          )

      still : filled s.ring ≢ 0 → filled (publish_block s.ring) ≢ 0
      still ne = omega (arith, filled-publish_block shape mine.1)

      unread : (c : Reader) → ReaderInv s.ring c → ReaderInv (publish_block s.ring) c
      unread Reader.idle k = tt
      unread (found o) k = (still k.0, k.1)
      unread (copying o start done partial) k = (still k.0, k.1, k.2, k.3, k.4, k.5, k.6, k.7)

Step-Inv : {s t : System} → Step s t → Inv s → Inv t
Step-Inv {s} (begin outputs p e) inv =
    locals inv (rendering outputs) s.reader (begin_write-some s.ring inv.shape e) inv.reading_ok
Step-Inv (store outputs ch i x p hc hi) inv = store-Inv inv outputs ch i x p hc hi
Step-Inv (stamp outputs p) inv = stamp-Inv inv outputs p
Step-Inv (publish p) inv = publish-Inv inv p
Step-Inv (seek p ne) inv = seek-Inv inv ne
Step-Inv (take_start outputs p) inv = take_start-Inv inv outputs p
Step-Inv (copy outputs start done partial p lt within) inv =
    copy-Inv inv outputs start done partial p lt within
Step-Inv (next_channel outputs start done partial p lt whole) inv =
    next_channel-Inv inv outputs start done partial p lt whole
Step-Inv (release outputs start done partial p whole) inv =
    release-Inv inv outputs start done partial p whole

Reach-Inv : {s t : System} → Inv s → Reach s t → Inv t
Reach-Inv inv here = inv
Reach-Inv inv (next r st) = Step-Inv st (Reach-Inv inv r)

fresh-Inv :
    (num_channels block_size capacity : ℕ)
    → 0 < capacity
    → Inv (fresh num_channels block_size capacity)
fresh-Inv num_channels block_size capacity h = record {
  shape = record { read_in = h; write_in = h; starts = length-replicate capacity 0 };
  rendering_ok = tt;
  reading_ok = tt;
  queue = sym (none_wait (filled r) (omega (arith, mod_cases (0 + capacity - 0) capacity)));
  counted = omega arith;
  in_turn = tt;
}
  where
    r : AudioBlockRing
    r = (fresh num_channels block_size capacity).ring

    none_wait : (n : ℕ) → n ≡ 0 → around capacity (block_at r) 0 n ≡ []
    none_wait n z = ap (around capacity (block_at r) 0) z

-- However the thread that renders and the audio callback interleave on a new ring, sample by sample,
-- the blocks that are read are the first of those rendered, each with the samples and the start that
-- it was published with. The starts of the blocks rendered are one block size apart from 0 on, and
-- the blocks still to come are fewer than the capacity.
pub render_ahead_fifo :
    (num_channels block_size capacity : ℕ) {t : System}
    → 0 < capacity
    → Reach (fresh num_channels block_size capacity) t
    → (rest : List Block) × (t.sent ≡ t.got ++ rest)
      × (length rest < t.ring.capacity)
      × Consecutive t.ring.block_size 0 t.sent
render_ahead_fifo num_channels block_size capacity {t} h r = (
  waiting t.ring,
  inv.queue,
  omega (
    arith,
    filled_in inv.shape,
    length-around t.ring.capacity (block_at t.ring) t.ring.read_index (filled t.ring),
  ),
  inv.in_turn,
)
  where
    inv : Inv t
    inv = Reach-Inv (fresh-Inv num_channels block_size capacity h) r
