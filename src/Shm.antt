-- ===== src/Shm.antt =====
-- apps/shared_memory.cpp, and the layout of the shared memory of the UI in apps/daw_engine_main.cpp.
pub mod Layout
mod Tests
use Prim.Native.Nat.{bit_and}
use unidaw.Base.{ℕ, ◌+◌, ◌-◌, ◌*◌, ◌%◌, ◌^◌}
use unidaw.Base.Words.{add64, u64_max}

-- Of a 64-bit value: `~(alignment - 1)` is `u64_max - (alignment - 1)`.
unfoldable pub align_up : (value alignment : ℕ) → ℕ
align_up value alignment = bit_and (add64 value (alignment - 1)) (u64_max - (alignment - 1))

-- `sizeof(float)` is 4, and a RingHeader and an EventEntry have 64 bytes.
unfoldable pub channel_stride_bytes : ℕ → ℕ
channel_stride_bytes block_size = align_up (block_size * 4) 64

unfoldable pub ring_bytes : ℕ → ℕ
ring_bytes capacity = add64 (align_up 64 64) (align_up (capacity * 64) 64)

-- The sizes of the structs of apps/shared_memory.h that the compiler lays out.
pub record Sizes : Type 0 where
  pub shm_header : ℕ
  pub block_mailbox : ℕ
  pub ui_clip : ℕ
  pub ui_harmony : ℕ

-- The offsets of the sections, and the size of the whole.
pub record UiLayout : Type 0 where
  pub ring_std_offset : ℕ
  pub ring_ctrl_offset : ℕ
  pub ring_ui_offset : ℕ
  pub ring_ui_out_offset : ℕ
  pub mailbox_offset : ℕ
  pub ui_clip_offset : ℕ
  pub ui_harmony_offset : ℕ
  pub size : ℕ

abbrev pub after : (offset bytes : ℕ) → ℕ
after offset bytes = add64 offset (align_up bytes 64)

unfoldable pub ui_layout : Sizes → (ring_ui_capacity ui_diff_ring_capacity : ℕ) → UiLayout
ui_layout sizes ring_ui_capacity ui_diff_ring_capacity =
    let ring_std = align_up sizes.shm_header 64 in
    let ring_ctrl = after ring_std (ring_bytes 0) in
    let ring_ui = after ring_ctrl (ring_bytes 0) in
    let ring_ui_out = after ring_ui (ring_bytes ring_ui_capacity) in
    let mailbox = after ring_ui_out (ring_bytes ui_diff_ring_capacity) in
    let ui_clip = after mailbox sizes.block_mailbox in
    let ui_harmony = after ui_clip sizes.ui_clip in
    record {
      ring_std_offset = ring_std;
      ring_ctrl_offset = ring_ctrl;
      ring_ui_offset = ring_ui;
      ring_ui_out_offset = ring_ui_out;
      mailbox_offset = mailbox;
      ui_clip_offset = ui_clip;
      ui_harmony_offset = ui_harmony;
      size = align_up (after ui_harmony sizes.ui_harmony) 64;
    }

-- The numbers of a host's ShmHeader that its size is computed from.
pub record HostShape : Type 0 where
  pub stride : ℕ
  pub num_channels_in : ℕ
  pub num_channels_out : ℕ
  pub num_blocks : ℕ

unfoldable pub shared_memory_size :
    Sizes → HostShape → (ring_std_capacity ring_ctrl_capacity ring_ui_capacity : ℕ) → ℕ
shared_memory_size sizes header ring_std_capacity ring_ctrl_capacity ring_ui_capacity =
    let in_block_bytes = header.num_channels_in * header.stride % 2 ^ 64 in
    let out_block_bytes = header.num_channels_out * header.stride % 2 ^ 64 in
    let inputs =
      after (align_up sizes.shm_header 64) (in_block_bytes * header.num_blocks % 2 ^ 64) in
    let outputs = after inputs (out_block_bytes * header.num_blocks % 2 ^ 64) in
    let ring_std = after outputs (ring_bytes ring_std_capacity) in
    let ring_ctrl = after ring_std (ring_bytes ring_ctrl_capacity) in
    let ring_ui = after ring_ctrl (ring_bytes ring_ui_capacity) in
    align_up (after ring_ui sizes.block_mailbox) 64
