-- ===== src/Admin/Ads/Tests.antt =====
-- A run of the ads' facade.
use kiosk_screen.Prelude.{some, none, true, List, [], ◌∷◌}
use kiosk_screen.Admin.Facade.{done, failed}
use kiosk_screen.Admin.Ads.{
  AdPayload, AdsEvent, ads_refreshed, ads_uploaded, ads_reordered, ads_answered,
}

abbrev banner : AdPayload
banner = record {
  source_reference = "/media/banner";
  is_active = true;
  display_order = none;
  duration_seconds = none;
  rotation_animation = none;
  animation_duration_milliseconds = none;
  advertiser = some "Bar";
}

abbrev ads_session : List AdsEvent
ads_session =
    ads_refreshed
    ∷ ads_uploaded banner (1 ∷ 2 ∷ [])
    ∷ ads_answered 1 done
    ∷ ads_reordered ("x" ∷ [])
    ∷ ads_answered 2 (failed none)
    ∷ ads_answered 1 done
    ∷ []
