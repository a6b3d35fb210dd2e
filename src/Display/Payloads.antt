-- ===== src/Display/Payloads.antt =====
-- The payloads of the display stream: frontend/src/app/display/display-stream.models.ts, and the
-- configuration of frontend/src/app/core/api/display.api.ts.
use kiosk_screen.Prelude.{ℕ, String, Bool, Option, List}
use kiosk_screen.Display.Item.{DisplayContentItem, DisplayAdItem, ContentMode, RotationAnimation}

pub record DisplayKioskConfiguration : Type 0 where
  pub id : String
  pub name : String
  pub top_region_ratio : ℕ
  pub bottom_region_ratio : ℕ
  pub default_top_duration_seconds : ℕ
  pub default_ad_duration_seconds : ℕ
  pub default_top_rotation_animation : Option RotationAnimation
  pub default_ad_rotation_animation : Option RotationAnimation
  pub default_top_animation_duration_milliseconds : Option ℕ
  pub default_ad_animation_duration_milliseconds : Option ℕ
  pub inline_ad_count : Option ℕ
  pub inline_ad_item_border_radius_px : Option ℕ
  pub inline_ad_item_border_width_px : Option ℕ
  pub inline_ad_item_border_color : Option String
  pub remote_control_polling_seconds : Option ℕ
  pub video_end_delay_seconds : Option ℕ
  pub iframe_preventive_reload_seconds : Option ℕ
  pub novelty_max_defer_transitions : Option ℕ
  pub is_enabled : Bool

pub data PlaybackMode : Type 0 where
  timer_mode video_mode manual_mode fixed_loop : PlaybackMode

pub record Playback : Type 0 where
  pub mode : PlaybackMode
  pub duration_seconds : ℕ
  pub video_end_delay_seconds : ℕ
  pub loop_video : Bool

pub record Transition : Type 0 where
  pub animation : String
  pub duration_ms : ℕ

pub record ShowContentPayload : Type 0 where
  pub command_id : String
  pub content : DisplayContentItem
  pub playback : Playback
  pub transition : Transition
  pub reason : String

pub record ModeChangedPayload : Type 0 where
  pub content_mode : ContentMode
  pub is_paused : Bool
  pub ads_visible : Bool
  pub selected_fixed_content_id : Option String
  pub reason : String

-- Scales are given in thousandths.
pub record IframeInfo : Type 0 where
  pub id : String
  pub title : Option String
  pub url : String
  pub scale_x : Option ℕ
  pub scale_y : Option ℕ

pub record ShowIframePayload : Type 0 where
  pub command_id : String
  pub iframe : IframeInfo
  pub reason : String

pub data ScaleSource : Type 0 where
  override default : ScaleSource

pub record IframeScaleUpdatedPayload : Type 0 where
  pub display_device_id : String
  pub iframe_id : String
  pub scale_x : ℕ
  pub scale_y : ℕ
  pub source : ScaleSource

pub record PreloadItem : Type 0 where
  pub content_id : String
  pub media_url : String
  pub content_type : String
  pub media_version : String
  pub is_novelty : Bool
  pub defer_count : Option ℕ
  pub max_defer : Option ℕ
  pub download_ready : Option Bool

pub record PreloadPayload : Type 0 where
  pub items : List PreloadItem
  pub lead_time_seconds : ℕ

pub record Border : Type 0 where
  pub radius_px : ℕ
  pub width_px : ℕ
  pub color : String

pub record ShowAdsPayload : Type 0 where
  pub command_id : String
  pub items : List DisplayAdItem
  pub start_index : ℕ
  pub inline_ad_count : ℕ
  pub border : Border
  pub transition : Transition
  pub duration_seconds : ℕ
  pub reason : String

pub record SnapshotIframe : Type 0 where
  pub id : String
  pub url : String
  pub scale_x : Option ℕ
  pub scale_y : Option ℕ

pub record SnapshotPayload : Type 0 where
  pub configuration : DisplayKioskConfiguration
  pub content_mode : ContentMode
  pub is_paused : Bool
  pub ads_visible : Bool
  pub selected_iframe : Option SnapshotIframe
  pub current_top : Option ShowContentPayload
  pub current_ads : Option ShowAdsPayload
  pub fallback_active : Bool
  pub pending_novelties : Option (List PreloadItem)

pub record ConfigUpdatedPayload : Type 0 where
  pub configuration : DisplayKioskConfiguration
  pub apply_immediately : Bool
  pub changed_fields : List String

pub record BrandingUpdatedPayload : Type 0 where
  pub event_name : String
  pub organizer_name : String
  pub organizer_logo_url : Option String

pub record KioskRegisterResponse : Type 0 where
  pub kiosk_id : String
  pub organization_id : String
  pub operator_session_id : String
  pub display_device_id : String
  pub protocol_version : ℕ

pub data RemoteCommand : Type 0 where
  next_command previous_command pause_command resume_command jump_to_command : RemoteCommand

pub record DisplayRemoteControlState : Type 0 where
  pub content_mode : ContentMode
  pub selected_iframe_id : Option String
  pub selected_fixed_content_id : Option String
  pub ads_visible : Bool
  pub fullscreen_requested : Option Bool
  pub navigation_command : Option RemoteCommand
  pub navigation_command_id : Option String
  pub jump_to_content_id : Option String
  pub updated_at : String

-- The iframe of a state by what the display reads of it.
pub record SelectedIframe : Type 0 where
  pub id : String
  pub url : String
  pub scale_x : Option ℕ
  pub scale_y : Option ℕ

pub record DisplayState : Type 0 where
  pub configuration : DisplayKioskConfiguration
  pub top_content : List DisplayContentItem
  pub ads : List DisplayAdItem
  pub remote_control : Option DisplayRemoteControlState
  pub selected_iframe : Option SelectedIframe
  pub fallback_active : Bool
  pub current_top : Option ShowContentPayload
  pub current_ads : Option ShowAdsPayload
