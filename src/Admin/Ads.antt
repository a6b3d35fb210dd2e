-- ===== src/Admin/Ads.antt =====
-- frontend/src/app/features/ads/ads.facade.ts over the state of Admin/Facade, with the data of
-- frontend/src/app/core/api/ads.api.ts. Its `refresh` is always loud, and its `remove`,
-- `removeMany`, `reorder`, `clearError` and `clearCurrent` are those of Admin/Facade.
mod Tests
use kiosk_screen.Prelude.{
  ℕ, String, ◌≡◌, refl, Bool, true, false, Option, none, some, List, [], ◌∷◌, map, arith,
  if◌then◌else◌, non_empty,
}
use kiosk_screen.Display.Item.{RotationAnimation, MediaFileReference}
use kiosk_screen.Admin.Catalog.{Listed}
use kiosk_screen.Admin.Facade.{
  Call, create, update, upload_file, keep_items, Answer, Facade, refresh, load, begin_saving,
  finish, send_all, send, remove, clear_error, clear_current, remove_many, reorder, answer,
}
use kiosk_screen.Admin.Facade.Spinner.{
  IsSettling, refresh-IsSettling, load-IsSettling, answer-IsSettling, send_all-IsSettling,
  remove-IsSettling, remove_many-IsSettling, reorder-IsSettling, clear_error-IsSettling,
  clear_current-IsSettling,
}

pub record AdItem : Type 0 where
  pub id : String
  pub source_reference : String
  pub media_file : Option MediaFileReference
  pub is_active : Bool
  pub display_order : ℕ
  pub duration_seconds : Option ℕ
  pub rotation_animation : Option RotationAnimation
  pub animation_duration_milliseconds : Option ℕ
  pub effective_duration_seconds : Option ℕ
  pub effective_rotation_animation : Option RotationAnimation
  pub effective_animation_duration_milliseconds : Option ℕ
  pub advertiser : Option String

pub record AdPayload : Type 0 where
  pub source_reference : String
  pub is_active : Bool
  pub display_order : Option ℕ
  pub duration_seconds : Option ℕ
  pub rotation_animation : Option RotationAnimation
  pub animation_duration_milliseconds : Option ℕ
  pub advertiser : Option String

instance abbrev pub ad_listed : Listed AdItem
ad_listed = record {
  id = λ x. x.id;
  display_order = λ x. x.display_order;
  with_order = λ n x. record x { display_order = n };
  is_active = λ x. x.is_active;
  with_active = λ b x. record x { is_active = b };
  id-with_order = λ n x. refl;
  display_order-with_order = λ n x. refl;
  with_active_back = λ b x. refl;
  id-with_active = λ b x. refl;
}

abbrev pub AdsFacade : Type 0
AdsFacade = Facade AdItem AdPayload

abbrev pub initial_ads : AdsFacade
initial_ads = record {
  items = [];
  current = none;
  loading = false;
  saving = false;
  error = none;
  in_flight = [];
  notified = 0;
}

abbrev pub given_ad : Option String → Option String
given_ad none = none
given_ad (some id) = if non_empty id then some id else none

-- `file ? (id ? updateAd : uploadAd) : (id ? updateAd : createAd)`
abbrev pub save_request : AdPayload → Option String → Option ℕ → Call AdPayload
save_request payload (some id) (some file) = update id payload
save_request payload none (some file) = upload_file payload file
save_request payload (some id) none = update id payload
save_request payload none none = create payload

unfoldable pub save_ad : AdPayload → Option String → Option ℕ → AdsFacade → AdsFacade
save_ad payload id file f =
    send keep_items (save_request payload (given_ad id) file) (begin_saving f)

unfoldable pub upload_ads : AdPayload → List ℕ → AdsFacade → AdsFacade
unfolding finish
upload_ads payload files f = send_all keep_items (map (upload_file payload) files) (begin_saving f)

pub data AdsEvent : Type 0 where
  ads_refreshed : AdsEvent
  ad_loaded : String → AdsEvent
  ad_saved : AdPayload → Option String → Option ℕ → AdsEvent
  ads_uploaded : AdPayload → List ℕ → AdsEvent
  ad_removed : String → AdsEvent
  ads_removed : List String → AdsEvent
  ads_reordered : List String → AdsEvent
  ads_error_cleared ads_current_cleared : AdsEvent
  ads_answered : ℕ → Answer AdItem → AdsEvent

unfoldable pub ads_step : AdsFacade → AdsEvent → AdsFacade
ads_step f ads_refreshed = refresh false f
ads_step f (ad_loaded id) = load id f
ads_step f (ad_saved payload id file) = save_ad payload id file f
ads_step f (ads_uploaded payload files) = upload_ads payload files f
ads_step f (ad_removed id) = remove id f
ads_step f (ads_removed ids) = remove_many ids f
ads_step f (ads_reordered ids) = reorder ids f
ads_step f ads_error_cleared = clear_error f
ads_step f ads_current_cleared = clear_current f
ads_step f (ads_answered i a) = answer i a f

abbrev pub ads_run : AdsFacade → List AdsEvent → AdsFacade
ads_run f [] = f
ads_run f (e ∷ es) = ads_run (ads_step f e) es

ads_step-IsSettling : (f : AdsFacade) (e : AdsEvent) → IsSettling f → IsSettling (ads_step f e)
unfolding ads_step save_ad upload_ads
ads_step-IsSettling f ads_refreshed h = refresh-IsSettling false f h
ads_step-IsSettling f (ad_loaded id) h = load-IsSettling id f h
ads_step-IsSettling f (ad_saved payload id file) h =
    send_all-IsSettling keep_items (save_request payload (given_ad id) file ∷ []) f.items f h
ads_step-IsSettling f (ads_uploaded payload files) h =
    send_all-IsSettling keep_items (map (upload_file payload) files) f.items f h
ads_step-IsSettling f (ad_removed id) h = remove-IsSettling id f h
ads_step-IsSettling f (ads_removed ids) h = remove_many-IsSettling ids f h
ads_step-IsSettling f (ads_reordered ids) h = reorder-IsSettling ids f h
ads_step-IsSettling f ads_error_cleared h = clear_error-IsSettling f h
ads_step-IsSettling f ads_current_cleared h = clear_current-IsSettling f h
ads_step-IsSettling f (ads_answered i a) h = answer-IsSettling i a f h

ads_run_from : (es : List AdsEvent) (f : AdsFacade) → IsSettling f → IsSettling (ads_run f es)
ads_run_from [] f h = h
ads_run_from (e ∷ es) f h = ads_run_from es (ads_step f e) (ads_step-IsSettling f e h)

-- After any sequence of operations and answers, in any order, the ads' page shows that it saves
-- only while a change that it sent is unanswered, and that it loads only while a refresh or the
-- load of an ad is unanswered.
pub ads_run-IsSettling : (es : List AdsEvent) → IsSettling (ads_run initial_ads es)
ads_run-IsSettling es =
    ads_run_from es initial_ads
      (record { saves = λ on. absurd (ground arith); loads = λ on. absurd (ground arith) })

-- Saving an ad that exists, under an id that is not empty, with a new file does the same as saving
-- it without: the file is not sent.
pub save_ad_drops_file :
    (payload : AdPayload) (id : String) (file : ℕ) (f : AdsFacade)
    → non_empty id ≡ true
    → save_ad payload (some id) (some file) f ≡ save_ad payload (some id) none f
unfolding save_ad
save_ad_drops_file payload id file f h = ground (arith, h)
