-- ===== src/Display/Viewer/Modes.antt =====
-- The mode and what is on screen agree, whatever the stream sends.
use kiosk_screen.Prelude.{
  ◌≡◌, refl, ◌⊎◌, inl, inr, true, ◌&&◌, Option, none, some, List, [], ◌∷◌, arith, if_both, is_some,
}
use kiosk_screen.Display.Item.{ContentMode, iframe, is_iframe}
use kiosk_screen.Display.Payloads.{
  ShowContentPayload, ShowIframePayload, ShowAdsPayload, SnapshotPayload, SnapshotIframe,
  ModeChangedPayload, PreloadPayload,
}
use kiosk_screen.Display.Viewer.{
  Viewer, apply_mode_changed, apply_show_content, apply_preload, apply_show_iframe, apply_show_ads,
  apply_snapshot, show_if, snapshot_mode, snapshot_iframe_payload,
}

pub data StreamEvent : Type 0 where
  mode_changed : ModeChangedPayload → StreamEvent
  show_content : ShowContentPayload → StreamEvent
  show_iframe : ShowIframePayload → StreamEvent
  show_ads : ShowAdsPayload → StreamEvent
  preload : PreloadPayload → StreamEvent
  snapshot : SnapshotPayload → StreamEvent

unfoldable pub view : Viewer → StreamEvent → Viewer
view v (mode_changed p) = apply_mode_changed p v
view v (show_content p) = apply_show_content p v
view v (show_iframe p) = apply_show_iframe p v
view v (show_ads p) = apply_show_ads p v
view v (preload p) = apply_preload p v
view v (snapshot p) = apply_snapshot p v

abbrev pub view_all : Viewer → List StreamEvent → Viewer
view_all v [] = v
view_all v (e ∷ es) = view_all (view v e) es

-- An iframe is set only in iframe mode.
abbrev pub HasModeIframe : Viewer → Type 0
HasModeIframe v = (v.current_iframe ≡ none) ⊎ (v.content_mode ≡ iframe)

is_iframe→eq : (m : ContentMode) → is_iframe m ≡ true → m ≡ iframe
is_iframe→eq m h = ground arith

apply_mode_changed-HasModeIframe :
    (p : ModeChangedPayload) (v : Viewer) → HasModeIframe (apply_mode_changed p v)
unfolding apply_mode_changed
apply_mode_changed-HasModeIframe p v = ground (arith, is_iframe→eq p.content_mode)

apply_show_ads-HasModeIframe :
    (p : ShowAdsPayload) (v : Viewer) → HasModeIframe v → HasModeIframe (apply_show_ads p v)
unfolding apply_show_ads
apply_show_ads-HasModeIframe p v h = ground arith

show_ads-HasModeIframe :
    (ads : Option ShowAdsPayload) (v : Viewer)
    → HasModeIframe v
    → HasModeIframe (show_if apply_show_ads ads v)
show_ads-HasModeIframe none v h = h
show_ads-HasModeIframe (some p) v h = apply_show_ads-HasModeIframe p v h

show_top-HasModeIframe :
    (top : Option ShowContentPayload) (v : Viewer)
    → HasModeIframe v
    → HasModeIframe (show_if apply_show_content top v)
unfolding apply_show_content
show_top-HasModeIframe none v h = h
show_top-HasModeIframe (some p) v h = inl refl

show_selected-HasModeIframe :
    (f : Option SnapshotIframe) (v : Viewer)
    → HasModeIframe v
    → HasModeIframe
        (show_if (λ (g : SnapshotIframe). apply_show_iframe (snapshot_iframe_payload g)) f v)
unfolding apply_show_iframe
show_selected-HasModeIframe none v h = h
show_selected-HasModeIframe (some g) v h = inr refl

apply_snapshot-HasModeIframe :
    (s : SnapshotPayload) (v : Viewer) → HasModeIframe (apply_snapshot s v)
unfolding apply_snapshot
apply_snapshot-HasModeIframe s v =
    let v' = apply_mode_changed (snapshot_mode s) v in
    let h = apply_mode_changed-HasModeIframe (snapshot_mode s) v in
    show_ads-HasModeIframe s.current_ads _ (
      if_both HasModeIframe (is_iframe s.content_mode && is_some s.selected_iframe)
        (show_selected-HasModeIframe s.selected_iframe v' h)
        (show_top-HasModeIframe s.current_top v' h))

view-HasModeIframe : (v : Viewer) (e : StreamEvent) → HasModeIframe v → HasModeIframe (view v e)
unfolding view apply_show_content apply_show_iframe apply_preload
view-HasModeIframe v (mode_changed p) h = apply_mode_changed-HasModeIframe p v
view-HasModeIframe v (show_content p) h = inl refl
view-HasModeIframe v (show_iframe p) h = inr refl
view-HasModeIframe v (show_ads p) h = apply_show_ads-HasModeIframe p v h
view-HasModeIframe v (preload p) h = h
view-HasModeIframe v (snapshot p) h = apply_snapshot-HasModeIframe p v

-- Whatever the stream sends, in whatever order, an iframe is on screen only in iframe mode, if that held
-- at the start.
pub view_all-HasModeIframe :
    (v : Viewer) (es : List StreamEvent) → HasModeIframe v → HasModeIframe (view_all v es)
view_all-HasModeIframe v [] h = h
view_all-HasModeIframe v (e ∷ es) h =
    view_all-HasModeIframe (view v e) es (view-HasModeIframe v e h)
