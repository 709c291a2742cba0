-- ===== src/RenderAhead/Cells.antt =====
-- Where the samples of a block stand in the memory of the ring of apps/render_ahead.cpp, and what a
-- write to one of them leaves of the others.
use native.Mathlib.Nat.{mul-le-mul_right}
use native.Mathlib.Decide.{dec_lt}
use unidaw.Base.{
  ℕ, zero, suc, ◌+◌, ◌*◌, ◌<◌, ◌≤◌, ◌≡◌, refl, ap, ap₂, ◌≢◌, ◌∙◌, List, [], ◌∷◌, ◌++◌, arith,
  length, set, get_or, get_or-set_ne, length-append, get_or-append, get_or-append_last, subst,
}
use unidaw.RenderAhead.{AudioBlockRing, channel_at, pointers, samples, read_channels}

product_le : (size a b : ℕ) → a ≤ b → a * size ≤ b * size
product_le size a b h = mul-le-mul_right size h

-- Places in different blocks of `size` cells are different.
pub apart : (size s t a b : ℕ) → s ≢ t → a < size → b < size → s * size + a ≢ t * size + b
apart size s t a b ne ha hb e = elim (dec_lt s t) [
  | yes lt ↦ omega (arith, product_le size (suc s) t (omega arith))
  | no ge ↦ omega (arith, product_le size (suc t) s (omega arith))
]

-- A sample of a channel lies in the block.
pub inside : (count ch size i : ℕ) → ch < count → i < size → ch * size + i < count * size
inside count ch size i hc hi = omega (arith, product_le size (suc ch) count (omega arith))

module _ (r : AudioBlockRing) where
  -- The places of two samples are different when their slots or their channels are.
  pub other_slot :
      (s t ch ch' i i' : ℕ)
      → s ≢ t
      → ch < r.num_channels
      → ch' < r.num_channels
      → i < r.block_size
      → i' < r.block_size
      → channel_at r s ch + i ≢ channel_at r t ch' + i'
  other_slot s t ch ch' i i' ne hc hc' hi hi' e =
      apart (r.num_channels * r.block_size) s t (ch * r.block_size + i) (ch' * r.block_size + i') ne
        (inside r.num_channels ch r.block_size i hc hi)
        (inside r.num_channels ch' r.block_size i' hc' hi') (omega (arith, e))

  pub other_channel :
      (s ch ch' i i' : ℕ)
      → ch ≢ ch'
      → i < r.block_size
      → i' < r.block_size
      → channel_at r s ch + i ≢ channel_at r s ch' + i'
  other_channel s ch ch' i i' ne hi hi' e = apart r.block_size ch ch' i i' ne hi hi' (omega arith)

  -- Every channel of a slot lies in memory.
  pub channel_end :
      (s ch : ℕ)
      → s < r.capacity
      → ch < r.num_channels
      → channel_at r s ch + r.block_size ≤ r.capacity * r.num_channels * r.block_size
  channel_end s ch hs hc = omega (
    arith,
    product_le r.block_size (suc ch) r.num_channels (omega arith),
    product_le (r.num_channels * r.block_size) (suc s) r.capacity (omega arith),
  )

  length-pointers : (s n : ℕ) → length (pointers r s n) ≡ n
  length-pointers s zero = refl
  length-pointers s (suc n) =
      omega (arith, length-append (pointers r s n) (channel_at r s n ∷ []), length-pointers s n)

  pub get-pointers : (s n ch : ℕ) → ch < n → get_or (pointers r s n) ch 0 ≡ channel_at r s ch
  get-pointers s zero ch h = absurd (omega arith)
  get-pointers s (suc n) ch h = elim (dec_lt ch n) [
    | yes lt ↦
        get_or-append (pointers r s n) (channel_at r s n ∷ []) ch 0
          (omega (arith, length-pointers s n))
        ∙ get-pointers s n ch lt
    | no ge ↦
        subst (λ k. get_or (pointers r s (suc n)) k 0 ≡ channel_at r s n)
          (omega (arith, length-pointers s n))
          (get_or-append_last (pointers r s n) (channel_at r s n) 0)
        ∙ ap (channel_at r s) (omega arith)
  ]

-- A write outside of the cells that are read changes nothing of what is read.
pub samples-set :
    (xs : List ℕ) (at count k x : ℕ)
    → ((i : ℕ) → i < count → k ≢ at + i)
    → samples (set xs k x) at count ≡ samples xs at count
samples-set xs at zero k x h = refl
samples-set xs at (suc n) k x h =
    ap₂ (λ ys v. ys ++ (v ∷ [])) (samples-set xs at n k x (λ i lt. h i (omega arith)))
      (get_or-set_ne xs x 0 (h n (omega arith)))

pub read_channels-set :
    (xs outputs : List ℕ) (n num_frames k x : ℕ)
    → ((ch i : ℕ) → ch < n → i < num_frames → k ≢ get_or outputs ch 0 + i)
    → read_channels (set xs k x) outputs n num_frames ≡ read_channels xs outputs n num_frames
read_channels-set xs outputs zero frames k x h = refl
read_channels-set xs outputs (suc n) frames k x h =
    ap₂ (λ ys v. ys ++ (v ∷ []))
      (read_channels-set xs outputs n frames k x (λ ch i lt hi. h ch i (omega arith) hi))
      (samples-set xs (get_or outputs n 0) frames k x (λ i hi. h n i (omega arith) hi))
