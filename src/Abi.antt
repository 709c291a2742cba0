-- ===== src/Abi.antt =====
-- The node configurations of apps/patcher_abi.h. Floats are their 32-bit patterns.
use unidaw.Base.{ℕ}

pub record PatcherEuclideanConfig : Type 0 where
  pub steps : ℕ
  pub hits : ℕ
  pub offset : ℕ
  pub duration_ticks : ℕ
  pub degree : ℕ
  pub octave_offset : ℕ
  pub velocity : ℕ
  pub base_octave : ℕ

-- `PatcherEuclideanConfig{}`.
abbrev pub default_euclidean : PatcherEuclideanConfig
default_euclidean = record {
  steps = 16;
  hits = 5;
  offset = 0;
  duration_ticks = 0;
  degree = 1;
  octave_offset = 0;
  velocity = 100;
  base_octave = 4;
}

pub record PatcherRandomDegreeConfig : Type 0 where
  pub degree : ℕ
  pub velocity : ℕ
  pub duration_ticks : ℕ

abbrev pub default_random_degree : PatcherRandomDegreeConfig
default_random_degree = record { degree = 8; velocity = 100; duration_ticks = 0 }

pub record PatcherLfoConfig : Type 0 where
  pub frequency_hz : ℕ
  pub depth : ℕ
  pub bias : ℕ
  pub phase_offset : ℕ

-- 1.0f, 1.0f, 0.0f, 0.0f.
abbrev pub default_lfo : PatcherLfoConfig
default_lfo = record { frequency_hz = 0x3f80_0000; depth = 0x3f80_0000; bias = 0; phase_offset = 0 }
