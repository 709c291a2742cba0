-- ===== src/Modulation.antt =====
-- apps/modulation.h: the modulation links of a track. A float is its 32-bit pattern.
use unidaw.Base.{ℕ, Bool, List}

pub data ModRate : Type 0 where
  block_rate sample_rate : ModRate

abbrev pub mod_link_id_auto : ℕ
mod_link_id_auto = 0xFFFFFFFF

pub data ModSourceKind : Type 0 where
  macro lfo envelope patcher_node_output : ModSourceKind

pub data ModTargetKind : Type 0 where
  vst_param patcher_param patcher_macro : ModTargetKind

pub record ModSourceRef : Type 0 where
  pub device_id : ℕ
  pub source_id : ℕ
  pub kind : ModSourceKind

pub record ModTargetRef : Type 0 where
  pub device_id : ℕ
  pub target_id : ℕ
  pub kind : ModTargetKind
  pub uid16 : List ℕ

pub record ModSourceState : Type 0 where
  pub ref : ModSourceRef
  pub value : ℕ

pub record ModLink : Type 0 where
  pub link_id : ℕ
  pub source : ModSourceRef
  pub target : ModTargetRef
  pub depth : ℕ
  pub bias : ℕ
  pub rate : ModRate
  pub enabled : Bool

pub record ModRegistry : Type 0 where
  pub sources : List ModSourceState
  pub links : List ModLink
