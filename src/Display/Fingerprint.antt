-- ===== src/Display/Fingerprint.antt =====
-- frontend/src/app/display/display-fingerprint.ts and `equalByDisplayFingerprint` of
-- frontend/src/app/core/api/display.api.ts. A text made by `JSON.stringify` stands for the value
-- that it is made from, since it tells two such values apart.
pub mod Equality
pub mod Window
use kiosk_screen.Prelude.{
  ℕ, zero, suc, ◌+◌, ◌%◌, max, String, Bool, true, false, ◌&&◌, Option, none, some, List, [], ◌∷◌,
  map, ◌==◌, str_eq, or_default, or_else, opt_str_eq, opt_nat_eq, bool_eq, opt_bool_eq, length,
  get_elem?, decimal, bool_text, opt_nat_text, join_colon,
}
use kiosk_screen.Display.Item.{
  DisplayContentItem, DisplayAdItem, ContentMode, RotationAnimation, still, fade, slide, mode_eq,
}
use kiosk_screen.Display.Payloads.{
  DisplayKioskConfiguration, ShowContentPayload, ShowAdsPayload, Border, Transition, DisplayState,
  DisplayRemoteControlState, SelectedIframe,
}

abbrev pub media_url_of : DisplayContentItem → String
media_url_of item = elim item.media_file [ none ↦ "" | some media ↦ media.media_url ]

unfoldable pub content_item_material_fingerprint : DisplayContentItem → String
content_item_material_fingerprint item = join_colon (
    item.id
    ∷ decimal item.display_order
    ∷ bool_text item.is_active
    ∷ bool_text (or_default item.is_fixed false)
    ∷ bool_text (or_default item.is_novelty false)
    ∷ opt_nat_text item.recurring_every_x_iterations
    ∷ item.source_reference
    ∷ media_url_of item
    ∷ opt_nat_text (or_else item.effective_duration_seconds item.duration_seconds)
    ∷ [])

-- The loop of `sameTopContentState`, with its test of the lengths.
unfoldable pub same_top_content_state : List DisplayContentItem → List DisplayContentItem → Bool
same_top_content_state [] [] = true
same_top_content_state (p ∷ prev) (c ∷ curr) =
    str_eq (content_item_material_fingerprint p) (content_item_material_fingerprint c)
    && same_top_content_state prev curr
same_top_content_state _ _ = false

unfoldable pub same_ads_state : List DisplayAdItem → List DisplayAdItem → Bool
same_ads_state [] [] = true
same_ads_state (p ∷ prev) (c ∷ curr) =
    str_eq p.id c.id
    && p.display_order == c.display_order
    && bool_eq p.is_active c.is_active
    && same_ads_state prev curr
same_ads_state _ _ = false

abbrev pub animation_eq : RotationAnimation → RotationAnimation → Bool
animation_eq still still = true
animation_eq fade fade = true
animation_eq slide slide = true
animation_eq _ _ = false

abbrev pub opt_animation_eq : Option RotationAnimation → Option RotationAnimation → Bool
opt_animation_eq none none = true
opt_animation_eq (some a) (some b) = animation_eq a b
opt_animation_eq _ _ = false

unfoldable pub same_display_configuration :
    DisplayKioskConfiguration → DisplayKioskConfiguration → Bool
same_display_configuration p c =
    str_eq p.id c.id
    && str_eq p.name c.name
    && p.top_region_ratio == c.top_region_ratio
    && p.bottom_region_ratio == c.bottom_region_ratio
    && p.default_top_duration_seconds == c.default_top_duration_seconds
    && p.default_ad_duration_seconds == c.default_ad_duration_seconds
    && opt_animation_eq p.default_top_rotation_animation c.default_top_rotation_animation
    && opt_animation_eq p.default_ad_rotation_animation c.default_ad_rotation_animation
    && opt_nat_eq p.default_top_animation_duration_milliseconds
        c.default_top_animation_duration_milliseconds
    && opt_nat_eq p.default_ad_animation_duration_milliseconds
        c.default_ad_animation_duration_milliseconds
    && opt_nat_eq p.inline_ad_count c.inline_ad_count
    && opt_nat_eq p.inline_ad_item_border_radius_px c.inline_ad_item_border_radius_px
    && opt_nat_eq p.inline_ad_item_border_width_px c.inline_ad_item_border_width_px
    && opt_str_eq p.inline_ad_item_border_color c.inline_ad_item_border_color
    && opt_nat_eq p.remote_control_polling_seconds c.remote_control_polling_seconds
    && opt_nat_eq p.video_end_delay_seconds c.video_end_delay_seconds
    && opt_nat_eq p.iframe_preventive_reload_seconds c.iframe_preventive_reload_seconds
    && bool_eq p.is_enabled c.is_enabled

unfoldable pub runtime_top_fingerprint : Option ShowContentPayload → String
runtime_top_fingerprint none = ""
runtime_top_fingerprint (some top) = join_colon (top.command_id ∷ top.content.id ∷ [])

abbrev pub animation_text : RotationAnimation → String
animation_text still = "none"
animation_text fade = "fade"
animation_text slide = "slide"

-- `item.effectiveRotationAnimation ?? item.rotationAnimation ?? 'none'`
abbrev pub ad_animation : DisplayAdItem → String
ad_animation item =
    animation_text
      (or_default (or_else item.effective_rotation_animation item.rotation_animation) still)

abbrev pub ad_media_url : DisplayAdItem → String
ad_media_url item = elim item.media_file [
  | none ↦ item.source_reference
  | some media ↦ media.media_url
]

pub record VisibleAd : Type 0 where
  pub id : String
  pub media_url : String
  pub animation : String
  pub animation_duration_ms : Option ℕ

pub record AdsWindow : Type 0 where
  pub start_index : ℕ
  pub inline_ad_count : ℕ
  pub visible_items : List VisibleAd
  pub border : Border
  pub transition : Transition

abbrev pub visible_ad : DisplayAdItem → VisibleAd
visible_ad item = record {
  id = item.id;
  media_url = ad_media_url item;
  animation = ad_animation item;
  animation_duration_ms =
      or_else item.effective_animation_duration_milliseconds item.animation_duration_milliseconds;
}

-- The items at `(start + index) % length` for the next `count` indices. Of an empty list the index is
-- NaN, and no item is found.
pub window_from : List DisplayAdItem → ℕ → ℕ → ℕ → List DisplayAdItem
window_from items start index zero = []
window_from items start index (suc count) =
    let rest = window_from items start (index + 1) count in
    elim (get_elem? items ((start + index) % length items)) [
      | none ↦ rest
      | some item ↦ item ∷ rest
    ]

-- The loop that `showAdsVisibleWindowFingerprint` and `applyShowAds` share.
unfoldable pub visible_window : ShowAdsPayload → List DisplayAdItem
unfolding window_from
visible_window payload =
    window_from payload.items payload.start_index 0 (max 1 payload.inline_ad_count)

unfoldable pub show_ads_visible_window_fingerprint : ShowAdsPayload → AdsWindow
unfolding visible_window
show_ads_visible_window_fingerprint payload = record {
  start_index = payload.start_index;
  inline_ad_count = max 1 payload.inline_ad_count;
  visible_items = map visible_ad (visible_window payload);
  border = payload.border;
  transition = payload.transition;
}

abbrev pub visible_ad_eq : VisibleAd → VisibleAd → Bool
visible_ad_eq a b =
    str_eq a.id b.id
    && str_eq a.media_url b.media_url
    && str_eq a.animation b.animation
    && opt_nat_eq a.animation_duration_ms b.animation_duration_ms

abbrev pub visible_ads_eq : List VisibleAd → List VisibleAd → Bool
visible_ads_eq [] [] = true
visible_ads_eq (a ∷ as_) (b ∷ bs) = visible_ad_eq a b && visible_ads_eq as_ bs
visible_ads_eq _ _ = false

-- Equality of two fingerprints.
unfoldable pub ads_window_eq : AdsWindow → AdsWindow → Bool
ads_window_eq a b =
    a.start_index == b.start_index
    && a.inline_ad_count == b.inline_ad_count
    && visible_ads_eq a.visible_items b.visible_items
    && a.border.radius_px == b.border.radius_px
    && a.border.width_px == b.border.width_px
    && str_eq a.border.color b.border.color
    && str_eq a.transition.animation b.transition.animation
    && a.transition.duration_ms == b.transition.duration_ms

abbrev pub opt_ads_window_eq : Option AdsWindow → Option AdsWindow → Bool
opt_ads_window_eq none none = true
opt_ads_window_eq (some a) (some b) = ads_window_eq a b
opt_ads_window_eq _ _ = false

unfoldable pub runtime_ads_fingerprint : Option ShowAdsPayload → Option AdsWindow
unfolding show_ads_visible_window_fingerprint
runtime_ads_fingerprint none = none
runtime_ads_fingerprint (some ads) = some (show_ads_visible_window_fingerprint ads)

-- `remoteControl?.field`, where the field may be missing too
abbrev pub remote_field {ℓ} :
    {A : Type ℓ}
    → Option DisplayRemoteControlState
    → (DisplayRemoteControlState → Option A)
    → Option A
remote_field none f = none
remote_field (some r) f = f r

abbrev pub opt_mode_eq : Option ContentMode → Option ContentMode → Bool
opt_mode_eq none none = true
opt_mode_eq (some a) (some b) = mode_eq a b
opt_mode_eq _ _ = false

abbrev pub iframe_id : Option SelectedIframe → Option String
iframe_id none = none
iframe_id (some f) = some f.id

abbrev pub iframe_url : Option SelectedIframe → String
iframe_url none = ""
iframe_url (some f) = f.url

pub same_remote_control : Option DisplayRemoteControlState → Option DisplayRemoteControlState → Bool
same_remote_control p c =
    opt_str_eq (remote_field p (λ r. r.selected_iframe_id))
      (remote_field c (λ r. r.selected_iframe_id))
    && opt_str_eq (remote_field p (λ r. r.selected_fixed_content_id))
        (remote_field c (λ r. r.selected_fixed_content_id))
    && opt_bool_eq (remote_field p (λ r. some r.ads_visible))
        (remote_field c (λ r. some r.ads_visible))
    && opt_bool_eq (remote_field p (λ r. r.fullscreen_requested))
        (remote_field c (λ r. r.fullscreen_requested))
    && opt_str_eq (remote_field p (λ r. r.navigation_command_id))
        (remote_field c (λ r. r.navigation_command_id))
    && opt_str_eq (remote_field p (λ r. r.jump_to_content_id))
        (remote_field c (λ r. r.jump_to_content_id))
    && opt_mode_eq (remote_field p (λ r. some r.content_mode))
        (remote_field c (λ r. some r.content_mode))

unfoldable pub equal_by_display_fingerprint : Option DisplayState → DisplayState → Bool
equal_by_display_fingerprint none curr = false
equal_by_display_fingerprint (some prev) curr =
    same_top_content_state prev.top_content curr.top_content
    && same_ads_state prev.ads curr.ads
    && same_display_configuration prev.configuration curr.configuration
    && same_remote_control prev.remote_control curr.remote_control
    && opt_str_eq (iframe_id prev.selected_iframe) (iframe_id curr.selected_iframe)
    && str_eq (iframe_url prev.selected_iframe) (iframe_url curr.selected_iframe)
    && str_eq (runtime_top_fingerprint prev.current_top) (runtime_top_fingerprint curr.current_top)
    && opt_ads_window_eq (runtime_ads_fingerprint prev.current_ads)
        (runtime_ads_fingerprint curr.current_ads)
