-- ===== src/Display/Screen/Seed.antt =====
-- The state of the server on the screen: `applyConfigurationState`, `seedViewerFromState` and the effect
-- of `configUpdated`. The wish for fullscreen goes to the DOM.
use kiosk_screen.Prelude.{
  ℕ, ◌+◌, max, String, Bool, true, false, ◌&&◌, ◌||◌, Option, none, some, List, [], ◌∷◌, ◌==◌,
  if◌then◌else◌, str_eq, is_some, or_default, truthy, length, take, head?, filter, find, JsSet,
  set_has,
}
use kiosk_screen.Display.Item.{DisplayContentItem, is_iframe, is_fixed_mode, has_id}
use kiosk_screen.Display.Payloads.{
  DisplayState, DisplayRemoteControlState, SelectedIframe, RemoteCommand, pause_command,
  ModeChangedPayload, ShowIframePayload, DisplayKioskConfiguration, ConfigUpdatedPayload,
}
use kiosk_screen.Display.Viewer.{
  Viewer, apply_mode_changed, apply_show_iframe, apply_show_content, apply_show_ads, show_if,
}
use kiosk_screen.Display.Screen.{
  Screen, viewer_of, over_viewer, warm_content, sync_content_render_items,
}

abbrev pub is_pause : Option RemoteCommand → Bool
is_pause (some pause_command) = true
is_pause _ = false

abbrev pub bootstrap_mode : DisplayRemoteControlState → ModeChangedPayload
bootstrap_mode remote = record {
  content_mode = remote.content_mode;
  is_paused = is_pause remote.navigation_command;
  ads_visible = remote.ads_visible;
  selected_fixed_content_id = remote.selected_fixed_content_id;
  reason = "bootstrap";
}

-- Scales are in thousandths, so the default scale 1 is 1000.
abbrev pub bootstrap_iframe : SelectedIframe → ShowIframePayload
bootstrap_iframe f = record {
  command_id = "bootstrap";
  iframe = record {
    id = f.id;
    title = some f.url;
    url = f.url;
    scale_x = some (or_default f.scale_x 1000);
    scale_y = some (or_default f.scale_y 1000);
  };
  reason = "bootstrap";
}

abbrev pub seed_fixed : Option String → List DisplayContentItem → Viewer → Viewer
seed_fixed none items v = v
seed_fixed (some id) items v = elim (find (has_id id) items) [
  | none ↦ v
  | some item ↦ record v { current_content = some item }
]

abbrev pub seed_first : List DisplayContentItem → Viewer → Viewer
seed_first items v =
    if is_some v.current_content
    then v
    else elim (head? items) [ none ↦ v | some item ↦ record v { current_content = some item } ]

-- The content that a mode calls for: the iframe, the pinned item, or the first of the queue.
abbrev pub seed_content : Option DisplayRemoteControlState → DisplayState → Viewer → Viewer
seed_content none state v = seed_first state.top_content v
seed_content (some remote) state v =
    if is_iframe remote.content_mode
    then show_if (λ (f : SelectedIframe). apply_show_iframe (bootstrap_iframe f))
        state.selected_iframe v
    else if is_fixed_mode remote.content_mode && truthy remote.selected_fixed_content_id
    then seed_fixed remote.selected_fixed_content_id state.top_content v
    else seed_first state.top_content v

abbrev pub seed_ads : DisplayState → Viewer → Viewer
seed_ads state v = elim state.current_ads [
  | some payload ↦ apply_show_ads payload v
  | none ↦
      if length v.visible_ads == 0
      then record v {
        visible_ads = take (max 1 (or_default state.configuration.inline_ad_count 1)) state.ads;
      }
      else v
]

unfoldable pub seed_viewer_from_state : DisplayState → Viewer → Viewer
seed_viewer_from_state state v = seed_ads state (
    show_if apply_show_content state.current_top (
      seed_content state.remote_control state (
        show_if (λ (remote : DisplayRemoteControlState). apply_mode_changed (bootstrap_mode remote))
          state.remote_control v)))

unfoldable pub warm_current : ℕ → Screen → Screen
unfolding warm_content
warm_current now s = elim (viewer_of s).current_content [
  | none ↦ s
  | some content ↦ warm_content now content s
]

unfoldable pub apply_configuration_state : ℕ → DisplayState → Screen → Screen
unfolding seed_viewer_from_state warm_current sync_content_render_items
apply_configuration_state now state s =
    let kept = record s { state = some state; state_version = s.state_version + 1 } in
    sync_content_render_items (warm_current now (over_viewer (seed_viewer_from_state state) kept))

abbrev pub immediate_config_fields : JsSet
immediate_config_fields =
    "topRegionRatio" ∷ "bottomRegionRatio" ∷ "inlineAdItemBorderRadiusPx"
    ∷ "inlineAdItemBorderWidthPx" ∷ "inlineAdItemBorderColor" ∷ "noveltyMaxDeferTransitions" ∷ []

abbrev pub applies_now : Bool → String → Bool
applies_now immediately field =
    (immediately || str_eq field "noveltyMaxDeferTransitions")
    && set_has immediate_config_fields field

-- `patch[field] = configuration[field]`
abbrev pub patch_field :
    String → DisplayKioskConfiguration → DisplayKioskConfiguration → DisplayKioskConfiguration
patch_field field new old =
    if str_eq field "topRegionRatio"
    then record old { top_region_ratio = new.top_region_ratio }
    else if str_eq field "bottomRegionRatio"
    then record old { bottom_region_ratio = new.bottom_region_ratio }
    else if str_eq field "inlineAdItemBorderRadiusPx"
    then record old { inline_ad_item_border_radius_px = new.inline_ad_item_border_radius_px }
    else if str_eq field "inlineAdItemBorderWidthPx"
    then record old { inline_ad_item_border_width_px = new.inline_ad_item_border_width_px }
    else if str_eq field "inlineAdItemBorderColor"
    then record old { inline_ad_item_border_color = new.inline_ad_item_border_color }
    else if str_eq field "noveltyMaxDeferTransitions"
    then record old { novelty_max_defer_transitions = new.novelty_max_defer_transitions }
    else old

abbrev pub patched :
    List String → DisplayKioskConfiguration → DisplayKioskConfiguration → DisplayKioskConfiguration
patched [] new old = old
patched (field ∷ fields) new old = patched fields new (patch_field field new old)

-- The effect of `configUpdated`.
unfoldable pub on_config_updated : ConfigUpdatedPayload → Screen → Screen
on_config_updated update s = elim s.state [
  | none ↦ s
  | some state ↦
      let fields = filter (applies_now update.apply_immediately) update.changed_fields in
      if length fields == 0 then s else record s {
        state = some (record state {
          configuration = patched fields update.configuration state.configuration;
        });
        state_version = s.state_version + 1;
      }
]
