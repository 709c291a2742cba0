-- ===== src/RenderAhead/Locals.antt =====
-- What the locals of a thread of apps/render_ahead.cpp say about the ring.
use mathlib.Core.Option.{some_inj}
use unidaw.Base.{
  ◌⊎◌, Bool, true, false, ℕ, ◌+◌, ◌-◌, ◌%◌, ◌<◌, ◌≤◌, ◌≡◌, refl, sym, ◌≢◌, List, none, some, arith,
  length, get_or, if◌then◌else◌, ◌==◌,
}
use unidaw.Base.Window.{mod_cases}
use unidaw.RenderAhead.{AudioBlockRing, begin_write, pointers, samples, channel_at}
use unidaw.RenderAhead.Threads.{Renderer, rendering, stamped, Reader, found, copying, channels}
use unidaw.RenderAhead.Waiting.{filled, Shape}

-- What a thread's locals say about the ring and the counter of the thread.
abbrev pub RendererInv : AudioBlockRing → ℕ → Renderer → Type 0
RendererInv r counter Renderer.idle = Unit
RendererInv r counter (rendering outputs) =
    (outputs ≡ pointers r r.write_index r.num_channels) × (filled r < r.capacity - 1)
RendererInv r counter stamped =
    (get_or r.sample_starts r.write_index 0 ≡ counter) × (filled r < r.capacity - 1)

abbrev pub ReaderInv : AudioBlockRing → Reader → Type 0
ReaderInv r Reader.idle = Unit
ReaderInv r (found outputs) = (filled r ≢ 0) × (outputs ≡ pointers r r.read_index r.num_channels)
ReaderInv r (copying outputs sample_start done partial) =
    (filled r ≢ 0)
    × (outputs ≡ pointers r r.read_index r.num_channels)
    × (sample_start ≡ get_or r.sample_starts r.read_index 0)
    × (length done ≤ r.num_channels)
    × (done ≡ channels r r.read_index (length done))
    × (length partial ≤ r.block_size)
    × ((length partial ≡ 0) ⊎ (length done < r.num_channels))
    × (partial ≡ samples r.sample_data (channel_at r r.read_index (length done)) (length partial))

only_some :
    {A : Type 0} (b : Bool) {x y : A}
    → (if b then none else some x) ≡ some y
    → (b ≡ false) × (y ≡ x)
only_some true e = cc
only_some false e = (refl, sym (some_inj.0 e))

pub ==-ne : (a b : ℕ) → (a == b) ≡ false → a ≢ b
==-ne a b h = ground arith

pub begin_write-some :
    (r : AudioBlockRing) {outputs : List ℕ}
    → Shape r
    → begin_write r ≡ some outputs
    → (outputs ≡ pointers r r.write_index r.num_channels) × (filled r < r.capacity - 1)
unfolding begin_write
begin_write-some r {outputs} v e = (
  got.1,
  omega (
    arith,
    ==-ne ((r.write_index + 1) % r.capacity) r.read_index got.0,
    v.read_in,
    v.write_in,
    mod_cases (r.write_index + 1) r.capacity,
    mod_cases (r.write_index + r.capacity - r.read_index) r.capacity,
  ),
)
  where
    got :
        (((r.write_index + 1) % r.capacity == r.read_index) ≡ false)
        × (outputs ≡ pointers r r.write_index r.num_channels)
    got = only_some ((r.write_index + 1) % r.capacity == r.read_index) e

pub some_left : (r : AudioBlockRing) → Shape r → r.read_index ≢ r.write_index → filled r ≢ 0
some_left r v ne z = ne (
    omega (
      arith,
      v.read_in,
      v.write_in,
      mod_cases (r.write_index + r.capacity - r.read_index) r.capacity,
    ))
