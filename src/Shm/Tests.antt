-- ===== src/Shm/Tests.antt =====
-- Rounding to 64, and a layout.
use unidaw.Base.{◌≡◌, refl}
use unidaw.Shm.{ring_bytes, align_up, Sizes, shared_memory_size}

abbrev sizes : Sizes
sizes = record { shm_header = 256; block_mailbox = 128; ui_clip = 180288; ui_harmony = 12304 }

-- Four blocks of two channels each way at 512 samples, and rings of 1024, 128 and 128 entries.
host_size :
    shared_memory_size
      (record { shm_header = 128; block_mailbox = 64; ui_clip = 0; ui_harmony = 0 })
      (record { stride = 2048; num_channels_in = 2; num_channels_out = 2; num_blocks = 4 })
      1024
      128
      128
    ≡ 115072
unfolding shared_memory_size align_up ring_bytes
host_size = refl
