-- ===== src/Latency.antt =====
-- apps/latency_manager.h: the samples by which what a plugin computes is ahead of what is heard.
pub mod Blocks
mod Tests
use unidaw.Base.{ℕ, ◌-◌, ◌*◌, ◌%◌, ◌^◌, if◌then◌else◌, leb, ltb}

pub record LatencyManager : Type 0 where
  pub block_size : ℕ
  pub latency_samples : ℕ

-- `(numBlocks - 1) * blockSize` is computed in 32 bits.
abbrev pub init : ℕ → ℕ → LatencyManager
init block_size num_blocks = record {
  block_size = block_size;
  latency_samples = if ltb 0 num_blocks then (((num_blocks - 1) * block_size) % 2 ^ 32) else 0;
}

abbrev pub get_compensated_start : LatencyManager → ℕ → ℕ
get_compensated_start m engine_sample_start =
    if leb m.latency_samples engine_sample_start then engine_sample_start - m.latency_samples else 0
