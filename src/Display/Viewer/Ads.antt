-- ===== src/Display/Viewer/Ads.antt =====
-- The ads of a repeated command.
use kiosk_screen.Prelude.{max, ◌≡◌, false, not, some, arith, str_eq}
use kiosk_screen.Display.Payloads.{ShowAdsPayload}
use kiosk_screen.Display.Fingerprint.{
  visible_window, show_ads_visible_window_fingerprint, opt_ads_window_eq,
}
use kiosk_screen.Display.Fingerprint.Equality.{ads_window_eq_refl}
use kiosk_screen.Display.Viewer.{Viewer, apply_show_ads, effective_ad_animation, animate}

-- What a change of the ads leaves: the window shown, and the fingerprint remembered.
apply_show_ads_new :
    (payload : ShowAdsPayload) (v : Viewer)
    → opt_ads_window_eq
        (some (show_ads_visible_window_fingerprint payload))
        v.last_show_ads_fingerprint
      ≡ false
    → ((apply_show_ads payload v).visible_ads ≡ visible_window payload)
      × ((apply_show_ads payload v).inline_ad_count ≡ max 1 payload.inline_ad_count)
      × ((apply_show_ads payload v).last_show_ads_fingerprint
          ≡ some (show_ads_visible_window_fingerprint payload))
unfolding apply_show_ads
apply_show_ads_new payload v h = ground arith

-- Showing the same ads again changes nothing but the run of the animation, which goes up by one just
-- when the payload animates.
pub apply_show_ads_again :
    (payload : ShowAdsPayload) (v : Viewer)
    → v.last_show_ads_fingerprint ≡ some (show_ads_visible_window_fingerprint payload)
    → apply_show_ads payload v ≡ animate (not (str_eq (effective_ad_animation payload) "none")) v
unfolding apply_show_ads
apply_show_ads_again payload v h =
    ground (arith, ads_window_eq_refl (show_ads_visible_window_fingerprint payload))

-- After a payload with a new fingerprint its window is on screen; sending it once more keeps it.
pub apply_show_ads_twice :
    (payload : ShowAdsPayload) (v : Viewer)
    → opt_ads_window_eq
        (some (show_ads_visible_window_fingerprint payload))
        v.last_show_ads_fingerprint
      ≡ false
    → let t = apply_show_ads payload v in
      (t.visible_ads ≡ visible_window payload)
      × (apply_show_ads payload t
          ≡ animate (not (str_eq (effective_ad_animation payload) "none")) t)
apply_show_ads_twice payload v h =
    let (shown, _, remembered) = apply_show_ads_new payload v h in
    (shown, apply_show_ads_again payload (apply_show_ads payload v) remembered)
