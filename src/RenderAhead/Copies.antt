-- ===== src/RenderAhead/Copies.antt =====
-- What the copies of samples in apps/render_ahead.cpp write and read.
use unidaw.Base.{
  ℕ, zero, suc, ◌+◌, ◌*◌, ◌<◌, ◌≤◌, ◌≡◌, refl, ap₂, ◌∙◌, List, [], ◌∷◌, ◌++◌, arith, length,
  length-set, get_or-set_self,
}
use unidaw.RenderAhead.{
  AudioBlockRing, samples, channel_at, pointers, fill, fill_channels, read_channels,
}
use unidaw.RenderAhead.Cells.{other_channel, channel_end, get-pointers, samples-set}
use unidaw.RenderAhead.Threads.{channels}

-- The values of `g` below a number.
abbrev pub tabulate : {A : Type 0} → ℕ → (ℕ → A) → List A
tabulate zero g = []
tabulate (suc n) g = tabulate n g ++ (g n ∷ [])

pub length-fill : (xs : List ℕ) (at n : ℕ) (g : ℕ → ℕ) → length (fill xs at n g) ≡ length xs
length-fill xs at zero g = refl
length-fill xs at (suc n) g = length-set (fill xs at n g) (at + n) (g n) ∙ length-fill xs at n g

samples-fill :
    (xs : List ℕ) (at n : ℕ) (g : ℕ → ℕ)
    → at + n ≤ length xs
    → samples (fill xs at n g) at n ≡ tabulate n g
samples-fill xs at zero g h = refl
samples-fill xs at (suc n) g h =
    ap₂ (λ ys v. ys ++ (v ∷ []))
      (samples-set (fill xs at n g) at n (at + n) (g n) (λ i lt e. omega arith)
        ∙ samples-fill xs at n g (omega arith))
      (get_or-set_self (fill xs at n g) (at + n) (g n) 0 (omega (arith, length-fill xs at n g)))

module _ (r : AudioBlockRing) where
  abbrev pub holding : List ℕ → AudioBlockRing
  holding xs = record r { sample_data = xs }

  -- The first channels do not see a later one change.
  pub channels-fill :
      (xs : List ℕ) (slot ch n m : ℕ) (g : ℕ → ℕ)
      → n ≤ ch
      → m ≤ r.block_size
      → channels (holding (fill xs (channel_at r slot ch) m g)) slot n
        ≡ channels (holding xs) slot n
  channels-fill xs slot ch zero m g le lm = refl
  channels-fill xs slot ch (suc n) m g le lm =
      ap₂ (λ ys v. ys ++ (v ∷ [])) (channels-fill xs slot ch n m g (omega arith) lm) (same m lm)
    where
      same :
          (m : ℕ)
          → m ≤ r.block_size
          → samples (fill xs (channel_at r slot ch) m g) (channel_at r slot n) r.block_size
            ≡ samples xs (channel_at r slot n) r.block_size
      same zero lm = refl
      same (suc m) lm =
          samples-set (fill xs (channel_at r slot ch) m g) (channel_at r slot n) r.block_size
            (channel_at r slot ch + m) (g m)
            (λ i hi. other_channel r slot ch n m i (omega arith) (omega arith) hi)
          ∙ same m (omega arith)

  abbrev pub whole : ℕ
  whole = r.capacity * r.num_channels * r.block_size

  -- What the pointers are for.
  abbrev pub placed : ℕ → List ℕ → ℕ → (ℕ → ℕ → ℕ) → List ℕ
  placed slot xs zero f = xs
  placed slot xs (suc ch) f = fill (placed slot xs ch f) (channel_at r slot ch) r.block_size (f ch)

  pub fill_channels-eq-placed :
      (slot : ℕ) (xs : List ℕ) (n : ℕ) (f : ℕ → ℕ → ℕ)
      → n ≤ r.num_channels
      → fill_channels xs (pointers r slot r.num_channels) n r.block_size f ≡ placed slot xs n f
  fill_channels-eq-placed slot xs zero f le = refl
  fill_channels-eq-placed slot xs (suc n) f le =
      ap₂ (λ ys at. fill ys at r.block_size (f n))
        (fill_channels-eq-placed slot xs n f (omega arith))
        (get-pointers r slot r.num_channels n (omega arith))

  length-placed :
      (slot : ℕ) (xs : List ℕ) (n : ℕ) (f : ℕ → ℕ → ℕ) → length (placed slot xs n f) ≡ length xs
  length-placed slot xs zero f = refl
  length-placed slot xs (suc n) f =
      length-fill (placed slot xs n f) (channel_at r slot n) r.block_size (f n)
      ∙ length-placed slot xs n f

  pub channels-placed :
      (slot : ℕ) (xs : List ℕ) (n : ℕ) (f : ℕ → ℕ → ℕ)
      → slot < r.capacity
      → n ≤ r.num_channels
      → length xs ≡ whole
      → channels (holding (placed slot xs n f)) slot n
        ≡ tabulate n (λ ch. tabulate r.block_size (f ch))
  channels-placed slot xs zero f hs le size = refl
  channels-placed slot xs (suc n) f hs le size =
      ap₂ (λ ys v. ys ++ (v ∷ []))
        (channels-fill (placed slot xs n f) slot n n r.block_size (f n) (omega arith) (omega arith)
          ∙ channels-placed slot xs n f hs (omega arith) size)
        (samples-fill (placed slot xs n f) (channel_at r slot n) r.block_size (f n)
          (omega (arith, length-placed slot xs n f, channel_end r slot n hs (omega arith))))

  pub read_channels-eq-channels :
      (slot n : ℕ)
      → n ≤ r.num_channels
      → read_channels r.sample_data (pointers r slot r.num_channels) n r.block_size
        ≡ channels r slot n
  read_channels-eq-channels slot zero le = refl
  read_channels-eq-channels slot (suc n) le =
      ap₂ (λ ys at. ys ++ (samples r.sample_data at r.block_size ∷ []))
        (read_channels-eq-channels slot n (omega arith))
        (get-pointers r slot r.num_channels n (omega arith))
