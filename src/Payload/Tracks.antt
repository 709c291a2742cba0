-- ===== src/Payload/Tracks.antt =====
-- The messages to the UI of apps/event_payloads.h that describe a track or the patcher graph.
use unidaw.Base.{ℕ, List}
use unidaw.Payload.{UiDiffType}

pub record UiChainDiffPayload : Type 0 where
  pub diff_type : UiDiffType
  pub flags : ℕ
  pub track_id : ℕ
  pub chain_version : ℕ
  pub device_id : ℕ
  pub device_kind : ℕ
  pub position : ℕ
  pub patcher_node_id : ℕ
  pub host_slot_index : ℕ
  pub capability_mask : ℕ
  pub bypass : ℕ

pub record UiChainErrorPayload : Type 0 where
  pub diff_type : UiDiffType
  pub error_code : ℕ
  pub track_id : ℕ
  pub device_id : ℕ
  pub device_kind : ℕ
  pub insert_index : ℕ

pub record UiTrackRoutingDiffPayload : Type 0 where
  pub diff_type : UiDiffType
  pub flags : ℕ
  pub track_id : ℕ
  pub routing_version : ℕ
  pub midi_in_kind : ℕ
  pub midi_out_kind : ℕ
  pub audio_in_kind : ℕ
  pub audio_out_kind : ℕ
  pub midi_in_track_id : ℕ
  pub midi_out_track_id : ℕ
  pub audio_in_track_id : ℕ
  pub audio_out_track_id : ℕ
  pub midi_in_input_id : ℕ
  pub audio_in_input_id : ℕ

pub record UiRoutingErrorPayload : Type 0 where
  pub diff_type : UiDiffType
  pub error_code : ℕ
  pub track_id : ℕ

pub record UiModLinkDiffPayload : Type 0 where
  pub diff_type : UiDiffType
  pub flags : ℕ
  pub track_id : ℕ
  pub mod_version : ℕ
  pub link_id : ℕ
  pub source_device_id : ℕ
  pub source_id : ℕ
  pub target_device_id : ℕ
  pub target_id : ℕ
  pub depth : ℕ
  pub bias : ℕ

pub record UiModLinkUid16DiffPayload : Type 0 where
  pub diff_type : UiDiffType
  pub flags : ℕ
  pub track_id : ℕ
  pub mod_version : ℕ
  pub link_id : ℕ
  pub uid16 : List ℕ

pub record UiModErrorPayload : Type 0 where
  pub diff_type : UiDiffType
  pub error_code : ℕ
  pub track_id : ℕ
  pub link_id : ℕ

pub record UiPatcherGraphDiffPayload : Type 0 where
  pub diff_type : UiDiffType
  pub flags : ℕ
  pub track_id : ℕ
  pub graph_version : ℕ
  pub node_id : ℕ
  pub node_type : ℕ
  pub src_node_id : ℕ
  pub dst_node_id : ℕ
  pub src_port_id : ℕ
  pub dst_port_id : ℕ
  pub edge_kind : ℕ

pub record UiPatcherGraphErrorPayload : Type 0 where
  pub diff_type : UiDiffType
  pub error_code : ℕ
  pub track_id : ℕ
  pub node_id : ℕ
  pub src_node_id : ℕ
  pub dst_node_id : ℕ
  pub src_port_id : ℕ
  pub dst_port_id : ℕ
  pub edge_kind : ℕ
