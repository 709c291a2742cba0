-- ===== src/Payload/Commands.antt =====
-- The commands of the UI of apps/event_payloads.h, without their command type and reserved fields.
use unidaw.Base.{ℕ, List}

pub record UiCommandPayload : Type 0 where
  pub flags : ℕ
  pub track_id : ℕ
  pub plugin_index : ℕ
  pub note_pitch : ℕ
  pub value0 : ℕ
  pub note_nanotick_lo : ℕ
  pub note_nanotick_hi : ℕ
  pub note_duration_lo : ℕ
  pub note_duration_hi : ℕ
  pub base_version : ℕ

pub record UiClipWindowCommandPayload : Type 0 where
  pub flags : ℕ
  pub track_id : ℕ
  pub request_id : ℕ
  pub window_start_lo : ℕ
  pub window_start_hi : ℕ
  pub window_end_lo : ℕ
  pub window_end_hi : ℕ
  pub cursor_event_index : ℕ

pub record UiChainCommandPayload : Type 0 where
  pub flags : ℕ
  pub track_id : ℕ
  pub base_version : ℕ
  pub device_id : ℕ
  pub device_kind : ℕ
  pub insert_index : ℕ
  pub patcher_node_id : ℕ
  pub host_slot_index : ℕ
  pub bypass : ℕ

pub record UiChordCommandPayload : Type 0 where
  pub flags : ℕ
  pub track_id : ℕ
  pub base_version : ℕ
  pub nanotick_lo : ℕ
  pub nanotick_hi : ℕ
  pub duration_lo : ℕ
  pub duration_hi : ℕ
  pub degree : ℕ
  pub quality : ℕ
  pub inversion : ℕ
  pub base_octave : ℕ
  pub humanize_timing : ℕ
  pub humanize_velocity : ℕ
  pub spread : ℕ

pub record UiTrackRoutingPayload : Type 0 where
  pub flags : ℕ
  pub track_id : ℕ
  pub base_version : ℕ
  pub midi_in_kind : ℕ
  pub midi_out_kind : ℕ
  pub audio_in_kind : ℕ
  pub audio_out_kind : ℕ
  pub midi_in_track_id : ℕ
  pub midi_out_track_id : ℕ
  pub audio_in_track_id : ℕ
  pub audio_out_track_id : ℕ
  pub midi_in_input_id : ℕ
  pub audio_in_input_id : ℕ

pub record UiModLinkCommandPayload : Type 0 where
  pub flags : ℕ
  pub track_id : ℕ
  pub base_version : ℕ
  pub link_id : ℕ
  pub source_device_id : ℕ
  pub source_id : ℕ
  pub target_device_id : ℕ
  pub target_id : ℕ
  pub depth : ℕ
  pub bias : ℕ

pub record UiModLinkUid16Payload : Type 0 where
  pub flags : ℕ
  pub track_id : ℕ
  pub base_version : ℕ
  pub link_id : ℕ
  pub uid16 : List ℕ

pub record UiModSourceValuePayload : Type 0 where
  pub flags : ℕ
  pub track_id : ℕ
  pub base_version : ℕ
  pub source_device_id : ℕ
  pub source_id : ℕ
  pub value : ℕ

pub record UiPatcherGraphCommandPayload : Type 0 where
  pub flags : ℕ
  pub track_id : ℕ
  pub base_version : ℕ
  pub node_id : ℕ
  pub node_type : ℕ
  pub src_node_id : ℕ
  pub dst_node_id : ℕ
  pub src_port_id : ℕ
  pub dst_port_id : ℕ
  pub edge_kind : ℕ

pub record UiAutomationCommandPayload : Type 0 where
  pub flags : ℕ
  pub track_id : ℕ
  pub target_plugin_index : ℕ
  pub base_version : ℕ
  pub uid16 : List ℕ

pub record UiDeviceEuclideanConfigPayload : Type 0 where
  pub flags : ℕ
  pub track_id : ℕ
  pub device_id : ℕ
  pub steps : ℕ
  pub hits : ℕ
  pub offset : ℕ
  pub duration_ticks : ℕ
  pub degree : ℕ
  pub octave_offset : ℕ
  pub velocity : ℕ
  pub base_octave : ℕ

-- `config` is the 16 bytes of the field.
pub record UiPatcherNodeConfigPayload : Type 0 where
  pub flags : ℕ
  pub track_id : ℕ
  pub base_version : ℕ
  pub node_id : ℕ
  pub config_type : ℕ
  pub config : List ℕ
