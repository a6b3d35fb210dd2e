-- ===== src/Display/Viewer.antt =====
-- frontend/src/app/display/display-viewer.controller.ts. `posts` are the kiosk events that were sent;
-- a failed request has no effect.
pub mod Errors
mod Tests
pub mod Ads
pub mod Modes
use kiosk_screen.Prelude.{
  ℕ, ◌+◌, max, String, Bool, true, false, not, ◌&&◌, ◌||◌, Option, none, some, List, [], ◌∷◌, ◌++◌,
  map, if◌then◌else◌, str_eq, is_some, or_default, or_else, non_empty, truthy, opt_str_eq, take,
  filter,
}
use kiosk_screen.Display.Item.{
  DisplayContentItem, DisplayAdItem, ContentMode, loop, iframe, fixed, is_iframe, is_fixed_mode,
}
use kiosk_screen.Display.Payloads.{
  ShowContentPayload, ShowIframePayload, ShowAdsPayload, IframeInfo, SnapshotIframe,
  SnapshotPayload, ModeChangedPayload, PreloadPayload, PreloadItem, PlaybackMode, fixed_loop,
}
use kiosk_screen.Display.Fingerprint.{
  AdsWindow, show_ads_visible_window_fingerprint, opt_ads_window_eq, visible_window, ad_animation,
}

pub record AdBorderStyle : Type 0 where
  pub border_radius : ℕ
  pub border_width : ℕ
  pub border_color : String

-- The bodies that `postKioskEvent` sends.
pub data KioskEvent : Type 0 where
  video_ended : String → String → String → KioskEvent
  media_error : String → String → String → KioskEvent

pub record Viewer : Type 0 where
  pub content_mode : ContentMode
  pub is_paused : Bool
  pub ads_visible : Bool
  pub current_content : Option DisplayContentItem
  pub current_iframe : Option IframeInfo
  pub visible_ads : List DisplayAdItem
  pub ad_animation_run : ℕ
  pub inline_ad_count : ℕ
  pub ad_border_style : Option AdBorderStyle
  pub current_command_id : Option String
  pub current_show_reason : String
  pub preload_urls : List String
  pub last_show_ads_fingerprint : Option AdsWindow
  pub reported_video_error_command_id : Option String
  pub kiosk_id : Option String
  pub posts : List KioskEvent

abbrev pub iframe_active : Viewer → Bool
iframe_active v = is_iframe v.content_mode && is_some v.current_iframe

unfoldable pub apply_mode_changed : ModeChangedPayload → Viewer → Viewer
apply_mode_changed payload v = record v {
  content_mode = payload.content_mode;
  is_paused = payload.is_paused;
  ads_visible = payload.ads_visible;
  current_iframe = if is_iframe payload.content_mode then v.current_iframe else none;
}

abbrev pub is_fixed_loop : PlaybackMode → Bool
is_fixed_loop fixed_loop = true
is_fixed_loop _ = false

unfoldable pub apply_show_content : ShowContentPayload → Viewer → Viewer
apply_show_content payload v = record v {
  content_mode =
      if is_fixed_loop payload.playback.mode
      then fixed
      else if not (is_iframe v.content_mode)
      then loop
      else v.content_mode;
  current_show_reason = payload.reason;
  current_content = some payload.content;
  current_command_id = some payload.command_id;
  current_iframe = none;
}

unfoldable pub apply_preload : PreloadPayload → Viewer → Viewer
apply_preload payload v = record v {
  preload_urls =
      filter non_empty (map (λ (item : PreloadItem). item.media_url) (take 1 payload.items));
}

unfoldable pub apply_show_iframe : ShowIframePayload → Viewer → Viewer
apply_show_iframe payload v = record v {
  content_mode = iframe;
  current_iframe = some payload.iframe;
  current_content = none;
  current_command_id = some payload.command_id;
}

-- `loop` of `effectiveAdAnimation` over the window: the first animation that is not "none".
abbrev pub first_animation : List DisplayAdItem → String
first_animation [] = "none"
first_animation (item ∷ items) =
    if str_eq (ad_animation item) "none" then first_animation items else ad_animation item

unfoldable pub effective_ad_animation : ShowAdsPayload → String
effective_ad_animation payload =
    if non_empty payload.transition.animation && not (str_eq payload.transition.animation "none")
    then payload.transition.animation
    else first_animation (visible_window payload)

abbrev pub with_window : ShowAdsPayload → Viewer → Viewer
with_window payload v = record v {
  last_show_ads_fingerprint = some (show_ads_visible_window_fingerprint payload);
  visible_ads = visible_window payload;
  inline_ad_count = max 1 payload.inline_ad_count;
  ad_border_style = some (record {
    border_radius = payload.border.radius_px;
    border_width = payload.border.width_px;
    border_color = payload.border.color;
  });
}

abbrev pub animate : Bool → Viewer → Viewer
animate should v = if should then record v { ad_animation_run = v.ad_animation_run + 1 } else v

unfoldable pub apply_show_ads : ShowAdsPayload → Viewer → Viewer
apply_show_ads payload v = animate (not (str_eq (effective_ad_animation payload) "none")) (
    if opt_ads_window_eq (some (show_ads_visible_window_fingerprint payload))
      v.last_show_ads_fingerprint
    then v
    else with_window payload v)

-- Scales are in thousandths, so the default scale 1 is 1000.
abbrev pub snapshot_iframe_payload : SnapshotIframe → ShowIframePayload
snapshot_iframe_payload f = record {
  command_id = "snapshot";
  iframe = record {
    id = f.id;
    title = some f.url;
    url = f.url;
    scale_x = some (or_default f.scale_x 1000);
    scale_y = some (or_default f.scale_y 1000);
  };
  reason = "snapshot";
}

abbrev pub show_if {ℓ} : {A : Type ℓ} → (A → Viewer → Viewer) → Option A → Viewer → Viewer
show_if f none v = v
show_if f (some a) v = f a v

abbrev pub snapshot_mode : SnapshotPayload → ModeChangedPayload
snapshot_mode s = record {
  content_mode = s.content_mode;
  is_paused = s.is_paused;
  ads_visible = s.ads_visible;
  selected_fixed_content_id = none;
  reason = "snapshot";
}

unfoldable pub apply_snapshot : SnapshotPayload → Viewer → Viewer
apply_snapshot s v =
    let v' = apply_mode_changed (snapshot_mode s) v in
    show_if apply_show_ads s.current_ads (
      if is_iframe s.content_mode && is_some s.selected_iframe
      then show_if (λ (f : SnapshotIframe). apply_show_iframe (snapshot_iframe_payload f))
          s.selected_iframe v'
      else show_if apply_show_content s.current_top v')

abbrev pub post : KioskEvent → Viewer → Viewer
post e v = record v { posts = v.posts ++ e ∷ [] }

-- `content.id !== this.currentContent()?.id`
abbrev pub is_current : DisplayContentItem → Viewer → Bool
is_current content v = elim v.current_content [
  | none ↦ false
  | some shown ↦ str_eq content.id shown.id
]

abbrev pub text_of : Option String → String
text_of o = or_default o ""

unfoldable pub on_video_ended : DisplayContentItem → Viewer → Viewer
on_video_ended content v =
    if is_fixed_mode v.content_mode
    then v
    else if not (truthy v.current_command_id)
        || not (truthy v.kiosk_id)
        || not (is_current content v)
    then v
    else post (video_ended (text_of v.kiosk_id) (text_of v.current_command_id) content.id) v

unfoldable pub report_media_error : String → Option String → Viewer → Viewer
report_media_error content_id command_id_override v =
    let command_id = or_else command_id_override v.current_command_id in
    if not (truthy command_id) || not (truthy v.kiosk_id)
    then v
    else post (media_error (text_of v.kiosk_id) (text_of command_id) content_id) v

abbrev pub with_reported : String → Viewer → Viewer
with_reported command_id v = record v { reported_video_error_command_id = some command_id }

unfoldable pub on_video_playback_error : DisplayContentItem → String → Viewer → Viewer
on_video_playback_error content command_id v =
    if not (non_empty command_id)
      || not (opt_str_eq (some command_id) v.current_command_id)
      || not (is_current content v)
      || opt_str_eq v.reported_video_error_command_id (some command_id)
    then v
    else report_media_error content.id (some command_id) (with_reported command_id v)
