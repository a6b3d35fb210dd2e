-- ===== src/Display/Fingerprint/Equality.antt =====
-- When two polled states count as the same.
use kiosk_screen.Prelude.{
  ℕ, String, ◌≡◌, refl, ap, ◌↔◌, Bool, true, false, Option, none, some, List, [], ◌∷◌, map, arith,
  eq_iff, eq_refl, str_eq→eq, opt_str_eq, opt_nat_eq, opt_bool_eq,
}
use kiosk_screen.Display.Item.{DisplayContentItem, DisplayAdItem, ContentMode, RotationAnimation}
use kiosk_screen.Display.Payloads.{
  DisplayKioskConfiguration, DisplayRemoteControlState, DisplayState,
}
use kiosk_screen.Display.Fingerprint.{
  content_item_material_fingerprint, same_top_content_state, same_ads_state, opt_animation_eq,
  same_display_configuration, AdsWindow, VisibleAd, visible_ads_eq, ads_window_eq,
  opt_ads_window_eq, remote_field, opt_mode_eq, iframe_id, iframe_url, same_remote_control,
  equal_by_display_fingerprint, runtime_top_fingerprint, runtime_ads_fingerprint,
}

-- Two queues are the same exactly when their items have the same fingerprints in the same order.
pub same_top_content_state_iff :
    (prev curr : List DisplayContentItem)
    → (same_top_content_state prev curr ≡ true)
      ↔ (map content_item_material_fingerprint prev ≡ map content_item_material_fingerprint curr)
unfolding same_top_content_state
same_top_content_state_iff [] [] = (λ h. refl, λ h. refl)
same_top_content_state_iff [] (c ∷ curr) = (λ h. cc, λ h. cc)
same_top_content_state_iff (p ∷ prev) [] = (λ h. cc, λ h. cc)
same_top_content_state_iff (p ∷ prev) (c ∷ curr) =
    let (to, from) = same_top_content_state_iff prev curr in
    let same = eq_iff (content_item_material_fingerprint p) (content_item_material_fingerprint c) in
    (λ h. ground (arith, to, same), λ h. ground (arith, from, same))

opt_str_eq_refl : (o : Option String) → opt_str_eq o o ≡ true
opt_str_eq_refl none = refl
opt_str_eq_refl (some s) = eq_refl s

opt_str_eq→eq : (a b : Option String) → opt_str_eq a b ≡ true → a ≡ b
opt_str_eq→eq none none h = refl
opt_str_eq→eq none (some b) h = cc
opt_str_eq→eq (some a) none h = cc
opt_str_eq→eq (some a) (some b) h = ap some (str_eq→eq a b h)

opt_nat_eq_refl : (o : Option ℕ) → opt_nat_eq o o ≡ true
opt_nat_eq_refl none = refl
opt_nat_eq_refl (some n) = ground arith

opt_bool_eq_refl : (o : Option Bool) → opt_bool_eq o o ≡ true
opt_bool_eq_refl o = ground arith

opt_animation_eq_refl : (o : Option RotationAnimation) → opt_animation_eq o o ≡ true
opt_animation_eq_refl o = ground arith

opt_mode_eq_refl : (o : Option ContentMode) → opt_mode_eq o o ≡ true
opt_mode_eq_refl o = ground arith

same_top_content_state_refl : (q : List DisplayContentItem) → same_top_content_state q q ≡ true
same_top_content_state_refl q = (same_top_content_state_iff q q).1 refl

same_ads_state_refl : (ads : List DisplayAdItem) → same_ads_state ads ads ≡ true
unfolding same_ads_state
same_ads_state_refl [] = refl
same_ads_state_refl (a ∷ ads) = ground (arith, eq_refl a.id, same_ads_state_refl ads)

same_display_configuration_refl :
    (c : DisplayKioskConfiguration) → same_display_configuration c c ≡ true
unfolding same_display_configuration
same_display_configuration_refl c =
    rw
      (
        eq_refl c.id,
        eq_refl c.name,
        opt_animation_eq_refl c.default_top_rotation_animation,
        opt_animation_eq_refl c.default_ad_rotation_animation,
        opt_nat_eq_refl c.default_top_animation_duration_milliseconds,
        opt_nat_eq_refl c.default_ad_animation_duration_milliseconds,
        opt_nat_eq_refl c.inline_ad_count,
        opt_nat_eq_refl c.inline_ad_item_border_radius_px,
        opt_nat_eq_refl c.inline_ad_item_border_width_px,
        opt_str_eq_refl c.inline_ad_item_border_color,
        opt_nat_eq_refl c.remote_control_polling_seconds,
        opt_nat_eq_refl c.video_end_delay_seconds,
        opt_nat_eq_refl c.iframe_preventive_reload_seconds,
      )
      (ground arith)

same_remote_control_refl : (r : Option DisplayRemoteControlState) → same_remote_control r r ≡ true
unfolding same_remote_control
same_remote_control_refl r =
    rw
      (
        opt_str_eq_refl (remote_field r (λ x. x.selected_iframe_id)),
        opt_str_eq_refl (remote_field r (λ x. x.selected_fixed_content_id)),
        opt_bool_eq_refl (remote_field r (λ x. some x.ads_visible)),
        opt_bool_eq_refl (remote_field r (λ x. x.fullscreen_requested)),
        opt_str_eq_refl (remote_field r (λ x. x.navigation_command_id)),
        opt_str_eq_refl (remote_field r (λ x. x.jump_to_content_id)),
        opt_mode_eq_refl (remote_field r (λ x. some x.content_mode)),
      )
      refl

visible_ads_eq_refl : (ads : List VisibleAd) → visible_ads_eq ads ads ≡ true
visible_ads_eq_refl [] = refl
visible_ads_eq_refl (a ∷ ads) =
    rw
      (
        eq_refl a.id,
        eq_refl a.media_url,
        eq_refl a.animation,
        opt_nat_eq_refl a.animation_duration_ms,
        visible_ads_eq_refl ads,
      )
      refl

pub ads_window_eq_refl : (w : AdsWindow) → ads_window_eq w w ≡ true
unfolding ads_window_eq
ads_window_eq_refl w =
    rw (visible_ads_eq_refl w.visible_items, eq_refl w.border.color, eq_refl w.transition.animation)
      (ground arith)

opt_ads_window_eq_refl : (w : Option AdsWindow) → opt_ads_window_eq w w ≡ true
opt_ads_window_eq_refl none = refl
opt_ads_window_eq_refl (some w) = ads_window_eq_refl w

-- A poll that brings the state that was last published is not published again, and the first state
-- always is.
pub equal_by_display_fingerprint_refl :
    (s : DisplayState)
    → (equal_by_display_fingerprint (some s) s ≡ true)
      × (equal_by_display_fingerprint none s ≡ false)
unfolding equal_by_display_fingerprint
equal_by_display_fingerprint_refl s = (
  rw
      (
        same_top_content_state_refl s.top_content,
        same_ads_state_refl s.ads,
        same_display_configuration_refl s.configuration,
        same_remote_control_refl s.remote_control,
        opt_str_eq_refl (iframe_id s.selected_iframe),
        eq_refl (iframe_url s.selected_iframe),
        eq_refl (runtime_top_fingerprint s.current_top),
        opt_ads_window_eq_refl (runtime_ads_fingerprint s.current_ads),
      )
      refl,
  refl,
)

remote_sound :
    (p c : Option DisplayRemoteControlState)
    → same_remote_control p c ≡ true
    → (remote_field p (λ r. r.navigation_command_id)
        ≡ remote_field c (λ r. r.navigation_command_id))
      × (remote_field p (λ r. r.jump_to_content_id) ≡ remote_field c (λ r. r.jump_to_content_id))
      × (remote_field p (λ r. r.selected_fixed_content_id)
          ≡ remote_field c (λ r. r.selected_fixed_content_id))
unfolding same_remote_control
remote_sound p c h = (
  ground (
    arith,
    opt_str_eq→eq (remote_field p (λ r. r.navigation_command_id))
        (remote_field c (λ r. r.navigation_command_id)),
  ),
  ground (
    arith,
    opt_str_eq→eq (remote_field p (λ r. r.jump_to_content_id))
        (remote_field c (λ r. r.jump_to_content_id)),
  ),
  ground (
    arith,
    opt_str_eq→eq (remote_field p (λ r. r.selected_fixed_content_id))
        (remote_field c (λ r. r.selected_fixed_content_id)),
  ),
)

-- What two states that count as the same have in common: the fingerprints of the queue, the ids of
-- the last command and of its target, and what is selected.
pub equal_by_display_fingerprint_sound :
    (p c : DisplayState)
    → equal_by_display_fingerprint (some p) c ≡ true
    → (map content_item_material_fingerprint p.top_content
        ≡ map content_item_material_fingerprint c.top_content)
      × (remote_field p.remote_control (λ r. r.navigation_command_id)
          ≡ remote_field c.remote_control (λ r. r.navigation_command_id))
      × (remote_field p.remote_control (λ r. r.jump_to_content_id)
          ≡ remote_field c.remote_control (λ r. r.jump_to_content_id))
      × (remote_field p.remote_control (λ r. r.selected_fixed_content_id)
          ≡ remote_field c.remote_control (λ r. r.selected_fixed_content_id))
      × (iframe_id p.selected_iframe ≡ iframe_id c.selected_iframe)
unfolding equal_by_display_fingerprint
equal_by_display_fingerprint_sound p c h =
    let top = (same_top_content_state_iff p.top_content c.top_content).0 in
    (
      ground (arith, top),
      ground (arith, remote_sound p.remote_control c.remote_control),
      ground (arith, remote_sound p.remote_control c.remote_control),
      ground (arith, remote_sound p.remote_control c.remote_control),
      ground (arith, opt_str_eq→eq (iframe_id p.selected_iframe) (iframe_id c.selected_iframe)),
    )
