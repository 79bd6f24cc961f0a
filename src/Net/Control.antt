-- ===== src/Net/Control.antt =====
-- crates/wx-proto/src/control.rs: every message of the control plane. Nonces, proofs and signatures
-- are lists of bytes; a text is the list of the bytes of its UTF-8.
use win_xtend.Prelude.{ℕ, Bool, Option, List}
use win_xtend.Proto.Ids.{NodeId, MonitorId}
use win_xtend.Proto.Caps.{Capabilities, Platform, DisplayServer}
use win_xtend.Proto.Edge.{Edge}
use win_xtend.Proto.Geom.{Monitor, NormPos}
use win_xtend.Core.Layout.{WireLayout}
use win_xtend.Agent.Clipboard.{ClipboardFormat, Compression}

abbrev pub Text : Type 0
Text = List ℕ

pub record NodeInfo (F : Type 0) : Type 0 where
  pub id : NodeId
  pub name : Text
  pub platform : Platform
  pub display_server : DisplayServer
  pub capabilities : Capabilities
  pub monitors : List (Monitor F)
  pub agent_version : Text

pub data RejectReason : Type 0 where
  protocol_too_old protocol_too_new : ℕ → RejectReason
  not_paired blocked bad_pairing_code busy : RejectReason
  other_reason : Text → RejectReason

pub data VideoCodec : Type 0 where
  h264 vp8 vp9 av1 : VideoCodec

pub record VideoConfig : Type 0 where
  pub codec : VideoCodec
  pub max_fps : ℕ
  pub bitrate_kbps : ℕ
  pub max_dimension : ℕ

unfoldable pub default_video : VideoConfig
default_video = record { codec = h264; max_fps = 60; bitrate_kbps = 8000; max_dimension = 2560 }

pub data ControlMsg (F : Type 0) : Type 0 where
  hello welcome : ℕ → NodeInfo F → List ℕ → ControlMsg F
  auth_proof : List ℕ → ControlMsg F
  reject : RejectReason → ControlMsg F
  pair_request : NodeInfo F → ControlMsg F
  pair_confirm : List ℕ → ControlMsg F
  pair_result : Bool → ControlMsg F
  monitors_changed : List (Monitor F) → ControlMsg F
  layout_update : WireLayout F → ControlMsg F
  layout_request : ControlMsg F
  take_control : MonitorId → NormPos F → Edge → ControlMsg F
  yield_control : ControlMsg F
  clipboard_offer : List ClipboardFormat → ℕ → ControlMsg F
  clipboard_request : ClipboardFormat → ℕ → ControlMsg F
  clipboard_data : ClipboardFormat → ℕ → Compression → List ℕ → ControlMsg F
  clipboard_stale : ℕ → ControlMsg F
  file_transfer_offer : ℕ → ℕ → ℕ → Text → ControlMsg F
  file_transfer_accept file_transfer_decline : ℕ → ControlMsg F
  file_transfer_progress : ℕ → ℕ → ControlMsg F
  file_transfer_done : ℕ → Option Text → ControlMsg F
  video_start video_reconfigure : MonitorId → VideoConfig → ControlMsg F
  video_stop : MonitorId → ControlMsg F
  video_unavailable : MonitorId → Text → ControlMsg F
  lock_session : ControlMsg F
  ping pong : ℕ → ControlMsg F
  goodbye : Text → ControlMsg F
  capabilities_changed : Capabilities → ControlMsg F
