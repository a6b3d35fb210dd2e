-- ===== src/Display/Samples.antt =====
-- Items, ads and payloads that the runs and the tests use.
use kiosk_screen.Prelude.{ℕ, String, true, false, Option, none, some, List, [], ◌∷◌}
use kiosk_screen.Display.Item.{DisplayContentItem, DisplayAdItem, photo, loop}
use kiosk_screen.Display.Payloads.{
  ShowContentPayload, ShowAdsPayload, DisplayState, DisplayKioskConfiguration, Transition,
  timer_mode,
}
use kiosk_screen.Display.Controller.State.{Controller, DisplayAdLike, initial}
use kiosk_screen.Display.Viewer.{Viewer}

-- A photo with its id, its place and its cadence.
abbrev pub photo_at : String → ℕ → Option ℕ → DisplayContentItem
photo_at id order cadence = record {
  id = id;
  title = id;
  content_type = photo;
  source_reference = "/media/photo";
  media_file = none;
  is_active = true;
  display_order = order;
  duration_seconds = none;
  rotation_animation = none;
  animation_duration_milliseconds = none;
  effective_duration_seconds = some 10;
  effective_rotation_animation = none;
  effective_animation_duration_milliseconds = none;
  is_fixed = none;
  is_novelty = none;
  recurring_every_x_iterations = cadence;
}

abbrev pub first_item : DisplayContentItem
first_item = photo_at "a" 1 none

abbrev pub second_item : DisplayContentItem
second_item = photo_at "b" 2 none

abbrev pub third_item : DisplayContentItem
third_item = photo_at "c" 3 none

abbrev pub recurring_item : DisplayContentItem
recurring_item = photo_at "r" 4 (some 2)

abbrev pub novelty_item : DisplayContentItem
novelty_item = record (photo_at "n" 5 none) { is_novelty = some true }

abbrev pub regular_items : List DisplayContentItem
regular_items = first_item ∷ second_item ∷ third_item ∷ []

abbrev pub mixed_items : List DisplayContentItem
mixed_items = recurring_item ∷ second_item ∷ novelty_item ∷ first_item ∷ []

abbrev pub sample_transition : Transition
sample_transition = record { animation = "fade"; duration_ms = 400 }

abbrev pub sample_content : DisplayContentItem → ShowContentPayload
sample_content item = record {
  command_id = "cmd-1";
  content = item;
  playback = record {
    mode = timer_mode;
    duration_seconds = 10;
    video_end_delay_seconds = 2;
    loop_video = false;
  };
  transition = sample_transition;
  reason = "advance";
}

abbrev pub sample_ad : String → DisplayAdItem
sample_ad id = record {
  id = id;
  source_reference = "/media/ad";
  media_file = none;
  is_active = true;
  display_order = 1;
  duration_seconds = none;
  rotation_animation = none;
  animation_duration_milliseconds = none;
  effective_duration_seconds = some 5;
  effective_rotation_animation = none;
  effective_animation_duration_milliseconds = none;
  advertiser = none;
}

abbrev pub sample_ads : ShowAdsPayload
sample_ads = record {
  command_id = "cmd-2";
  items = sample_ad "x" ∷ sample_ad "y" ∷ sample_ad "z" ∷ [];
  start_index = 2;
  inline_ad_count = 2;
  border = record { radius_px = 4; width_px = 1; color = "white" };
  transition = sample_transition;
  duration_seconds = 5;
  reason = "advance";
}

abbrev pub sample_configuration : DisplayKioskConfiguration
sample_configuration = record {
  id = "cfg";
  name = "hall";
  top_region_ratio = 800;
  bottom_region_ratio = 200;
  default_top_duration_seconds = 10;
  default_ad_duration_seconds = 5;
  default_top_rotation_animation = none;
  default_ad_rotation_animation = none;
  default_top_animation_duration_milliseconds = none;
  default_ad_animation_duration_milliseconds = none;
  inline_ad_count = some 2;
  inline_ad_item_border_radius_px = none;
  inline_ad_item_border_width_px = none;
  inline_ad_item_border_color = none;
  remote_control_polling_seconds = some 2;
  video_end_delay_seconds = some 2;
  iframe_preventive_reload_seconds = none;
  novelty_max_defer_transitions = none;
  is_enabled = true;
}

abbrev pub sample_state : DisplayState
sample_state = record {
  configuration = sample_configuration;
  top_content = mixed_items;
  ads = sample_ad "x" ∷ [];
  remote_control = none;
  selected_iframe = none;
  fallback_active = false;
  current_top = none;
  current_ads = none;
}

abbrev pub sample_viewer : Viewer
sample_viewer = record {
  content_mode = loop;
  is_paused = false;
  ads_visible = true;
  current_content = some first_item;
  current_iframe = none;
  visible_ads = [];
  ad_animation_run = 0;
  inline_ad_count = 1;
  ad_border_style = none;
  current_command_id = some "cmd-1";
  current_show_reason = "initial";
  preload_urls = [];
  last_show_ads_fingerprint = none;
  reported_video_error_command_id = none;
  kiosk_id = some "kiosk";
  posts = [];
}

abbrev pub ad_like : String → DisplayAdLike
ad_like id = record { id = id; display_order = 1; is_active = some true }

-- A controller in loop mode with the given queue, two ads, and the second item on screen.
abbrev pub rotating : List DisplayContentItem → Controller
rotating queue = record initial {
  content_queue = queue;
  ads = ad_like "x" ∷ ad_like "y" ∷ ad_like "z" ∷ [];
  inline_ad_count = 2;
  current_content_id = some "b";
  regular_cursor_id = some "b";
  listeners = 7 ∷ [];
}
