-- ===== src/RenderAhead/Invariant.antt =====
-- What holds of the two threads of apps/render_ahead.cpp at every step, and the steps of the reader.
use mathlib.Core.List.{append_assoc}
use unidaw.Base.{
  ℕ, suc, ◌+◌, ◌*◌, ◌<◌, ◌≡◌, ◌≢◌, refl, sym, ap, ap₂, subst, ◌∙◌, List, [], ◌∷◌, ◌++◌, arith, inl,
  inr, length, length-append, get_or,
}
use unidaw.RenderAhead.{end_read, samples, pointers, channel_at}
use unidaw.RenderAhead.Cells.{get-pointers}
use unidaw.RenderAhead.Threads.{
  Block, Renderer, rendering, stamped, Reader, found, copying, System, channels,
}
use unidaw.RenderAhead.Waiting.{waiting, Shape, filled-end_read, waiting-end_read}
use unidaw.RenderAhead.Locals.{RendererInv, ReaderInv, some_left}

-- Blocks of `size` samples to the channel that start one after the other, from `k` on.
abbrev pub Consecutive : ℕ → ℕ → List Block → Type 0
Consecutive size k [] = Unit
Consecutive size k (b ∷ bs) = (b.0 ≡ k) × Consecutive size (k + size) bs

pub Consecutive-append :
    (size k : ℕ) (bs : List Block) (b : Block)
    → Consecutive size k bs
    → b.0 ≡ k + length bs * size
    → Consecutive size k (bs ++ (b ∷ []))
Consecutive-append size k [] b c e = (omega arith, tt)
Consecutive-append size k (x ∷ bs) b c e =
    (c.0, Consecutive-append size (k + size) bs b c.1 (omega arith))

pub record Inv (s : System) : Type 0 where
  pub shape : Shape s.ring
  pub rendering_ok : RendererInv s.ring s.sample_counter s.renderer
  pub reading_ok : ReaderInv s.ring s.reader
  pub queue : s.sent ≡ s.got ++ waiting s.ring
  pub counted : s.sample_counter ≡ length s.sent * s.ring.block_size
  pub in_turn : Consecutive s.ring.block_size 0 s.sent

module _ {s : System} (inv : Inv s) where
  open inv use {shape}

  pub locals :
      (q : Renderer) (c : Reader)
      → RendererInv s.ring s.sample_counter q
      → ReaderInv s.ring c
      → Inv (record s { renderer = q; reader = c })
  locals q c a b = record {
    shape = shape;
    rendering_ok = a;
    reading_ok = b;
    queue = inv.queue;
    counted = inv.counted;
    in_turn = inv.in_turn;
  }

  pub seek-Inv :
      s.ring.read_index ≢ s.ring.write_index
      → Inv (record s { reader = found (pointers s.ring s.ring.read_index s.ring.num_channels) })
  seek-Inv ne = locals s.renderer _ inv.rendering_ok (some_left s.ring shape ne, refl)

  pub take_start-Inv :
      (outputs : List ℕ)
      → s.reader ≡ found outputs
      → Inv (record s {
        reader = copying outputs (get_or s.ring.sample_starts s.ring.read_index 0) [] [];
      })
  take_start-Inv outputs p =
      locals s.renderer _ inv.rendering_ok
        (mine.0, mine.1, refl, omega arith, refl, omega arith, inl refl, refl)
    where
      mine : ReaderInv s.ring (found outputs)
      mine = subst (ReaderInv s.ring) p inv.reading_ok

  module _ (outputs : List ℕ) (start : ℕ) (done : List (List ℕ)) (partial : List ℕ)
      (p : s.reader ≡ copying outputs start done partial) where
    mine : ReaderInv s.ring (copying outputs start done partial)
    mine = subst (ReaderInv s.ring) p inv.reading_ok

    place :
        length done < s.ring.num_channels
        → get_or outputs (length done) 0 ≡ channel_at s.ring s.ring.read_index (length done)
    place lt =
        ap (λ o. get_or o (length done) 0) mine.1
        ∙ get-pointers s.ring s.ring.read_index s.ring.num_channels (length done) lt

    pub copy-Inv :
        length done < s.ring.num_channels
        → length partial < s.ring.block_size
        → Inv (record s {
          reader = copying outputs start done (
              partial
              ++ (get_or s.ring.sample_data (get_or outputs (length done) 0 + length partial) 0
                  ∷ []));
        })
    copy-Inv lt within = locals s.renderer _ inv.rendering_ok (
      mine.0,
      mine.1,
      mine.2,
      mine.3,
      mine.4,
      omega (arith, longer),
      inr lt,
      subst
          (λ n.
            more ≡ samples s.ring.sample_data (channel_at s.ring s.ring.read_index (length done)) n)
          (sym longer)
          (ap₂ (λ xs at. xs ++ (get_or s.ring.sample_data (at + length partial) 0 ∷ [])) mine.7
            (place lt)),
    )
      where
        more : List ℕ
        more =
            partial
            ++ (get_or s.ring.sample_data (get_or outputs (length done) 0 + length partial) 0 ∷ [])

        longer : length more ≡ suc (length partial)
        longer = omega (arith, length-append partial (_ ∷ []))

    pub next_channel-Inv :
        length done < s.ring.num_channels
        → length partial ≡ s.ring.block_size
        → Inv (record s { reader = copying outputs start (done ++ (partial ∷ [])) [] })
    next_channel-Inv lt whole = locals s.renderer _ inv.rendering_ok (
      mine.0,
      mine.1,
      mine.2,
      omega (arith, longer),
      subst (λ n. more ≡ channels s.ring s.ring.read_index n) (sym longer)
          (ap₂ (λ cs xs. cs ++ (xs ∷ [])) mine.4
            (mine.7
              ∙ ap (samples s.ring.sample_data (channel_at s.ring s.ring.read_index (length done)))
                  whole)),
      omega arith,
      inl refl,
      refl,
    )
      where
        more : List (List ℕ)
        more = done ++ (partial ∷ [])

        longer : length more ≡ suc (length done)
        longer = omega (arith, length-append done (partial ∷ []))

    pub release-Inv :
        length done ≡ s.ring.num_channels
        → Inv (record s {
          ring = end_read s.ring;
          reader = Reader.idle;
          got = s.got ++ ((start, done) ∷ []);
        })
    unfolding end_read
    release-Inv whole = record {
      shape = record {
        read_in = omega (arith, shape.read_in);
        write_in = shape.write_in;
        starts = shape.starts;
      };
      rendering_ok = kept s.renderer inv.rendering_ok;
      reading_ok = tt;
      queue =
          inv.queue
          ∙ ap (λ xs. s.got ++ xs)
              (waiting-end_read shape mine.0
                ∙ ap (λ b. b ∷ waiting (end_read s.ring)) (sym (ap₂ (λ n cs. (n, cs)) mine.2 read)))
          ∙ sym (append_assoc s.got ((start, done) ∷ []) _);
      counted = inv.counted;
      in_turn = inv.in_turn;
    }
      where
        read : done ≡ channels s.ring s.ring.read_index s.ring.num_channels
        read = mine.4 ∙ ap (channels s.ring s.ring.read_index) whole

        kept :
            (q : Renderer)
            → RendererInv s.ring s.sample_counter q
            → RendererInv (end_read s.ring) s.sample_counter q
        kept Renderer.idle k = tt
        kept (rendering o) k = (k.0, omega (arith, filled-end_read shape mine.0, k.1))
        kept stamped k = (k.0, omega (arith, filled-end_read shape mine.0, k.1))
