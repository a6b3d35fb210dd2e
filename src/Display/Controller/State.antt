-- ===== src/Display/Controller/State.antt =====
-- The state of `KioskRotationController` and its timers. The listeners are numbers; `notified` lists
-- the calls made to them, and `reports` counts the empty-queue events that were sent.
use kiosk_screen.Prelude.{
  ℕ, ◌+◌, ◌-◌, ◌*◌, ◌%◌, min, max, String, Bool, true, false, not, ◌&&◌, Option, none, some, List,
  [], ◌∷◌, ◌++◌, ltb, ◌==◌, if◌then◌else◌, length, get_elem?, take, drop, find, JsMap, JsSet,
}
use kiosk_screen.Display.Item.{DisplayContentItem, ContentMode, loop, is_loop, has_id, photo, video}
use kiosk_screen.Display.Scheduler.{Timers, clear_content, clear_ad, arm_content, arm_ad}

pub record DisplayAdLike : Type 0 where
  pub id : String
  pub display_order : ℕ
  pub is_active : Option Bool

-- A novelty that the server was asked for: what `_tryAdvanceNovelty` holds across its `await`.
pub record Claim : Type 0 where
  pub queue : List DisplayContentItem
  pub regular_queue : List DisplayContentItem
  pub candidate : DisplayContentItem

-- What `JSON.stringify` is given for the rotation's fingerprint.
pub record RotationConfig : Type 0 where
  pub mode : ContentMode
  pub ads : List String
  pub fixed_id : Option String
  pub ad_duration : ℕ
  pub inline_count : ℕ
  pub video_end : ℕ

-- The variables that `bindInputs` keeps between two runs of its effect.
pub record Seen : Type 0 where
  pub config : RotationConfig
  pub queue : List String
  pub queue_by_id : JsMap String

pub record Controller : Type 0 where
  pub content_mode : ContentMode
  pub current_content_id : Option String
  pub ad_index : ℕ
  pub ad_animation_run : ℕ
  pub recurring_counters : JsMap ℕ
  pub is_paused : Bool
  pub fixed_content_id : Option String
  pub novelty_burst_signal : Bool
  pub content_queue : List DisplayContentItem
  pub ads : List DisplayAdLike
  pub ad_duration_seconds : ℕ
  pub inline_ad_count : ℕ
  pub video_end_delay_seconds : ℕ
  pub effective_duration_seconds : Option DisplayContentItem → ℕ
  pub loop_cursor_before_fixed : Option String
  pub regular_cursor_id : Option String
  pub filler_cursor_id : Option String
  pub last_recurring_cadence_by_id : JsMap ℕ
  pub novelty_burst_active : Bool
  pub resume_regular_cursor_id : Option String
  pub novelty_claim_failures : JsSet
  pub locally_shown_novelty_ids : JsSet
  pub advance_in_progress : Bool
  pub claim : Option Claim
  pub seen : Option Seen
  pub timers : Timers
  pub empty_queue_timer : Bool
  pub empty_queue_reported_at : ℕ
  pub listeners : List ℕ
  pub notified : List ℕ
  pub reports : ℕ

abbrev pub initial : Controller
initial = record {
  content_mode = loop;
  current_content_id = none;
  ad_index = 0;
  ad_animation_run = 0;
  recurring_counters = [];
  is_paused = false;
  fixed_content_id = none;
  novelty_burst_signal = false;
  content_queue = [];
  ads = [];
  ad_duration_seconds = 10;
  inline_ad_count = 1;
  video_end_delay_seconds = 2;
  effective_duration_seconds = λ item. 10;
  loop_cursor_before_fixed = none;
  regular_cursor_id = none;
  filler_cursor_id = none;
  last_recurring_cadence_by_id = [];
  novelty_burst_active = false;
  resume_regular_cursor_id = none;
  novelty_claim_failures = [];
  locally_shown_novelty_ids = [];
  advance_in_progress = false;
  claim = none;
  seen = none;
  timers = record { content_timer = none; ad_timer = none };
  empty_queue_timer = false;
  empty_queue_reported_at = 0;
  listeners = [];
  notified = [];
  reports = 0;
}

abbrev pub is_nil {ℓ} : {A : Type ℓ} → List A → Bool
is_nil [] = true
is_nil (x ∷ xs) = false

unfoldable pub is_queue_empty : Controller → Bool
is_queue_empty s = is_nil s.content_queue

unfoldable pub current_content : Controller → Option DisplayContentItem
current_content s = elim s.current_content_id [
  | none ↦ none
  | some id ↦ find (has_id id) s.content_queue
]

unfoldable pub current_ad : Controller → Option DisplayAdLike
current_ad s = elim s.ads [ [] ↦ none | x ∷ xs ↦ get_elem? s.ads (s.ad_index % length s.ads) ]

-- The `visibleAds` of a list, from an index on.
abbrev pub rotated_ads {ℓ} : {A : Type ℓ} → List A → ℕ → List A
rotated_ads list index =
    let start = (index % length list + length list) % length list in
    drop start list ++ take start list

unfoldable pub visible_ads : Controller → List DisplayAdLike
visible_ads s = elim s.ads [
  | [] ↦ []
  | x ∷ xs ↦
      let rotated = rotated_ads s.ads s.ad_index in
      take (min (max 1 s.inline_ad_count) (length rotated)) rotated
]

abbrev pub set_timers : Controller → Timers → Controller
set_timers s t = record s { timers = t }

abbrev pub is_video : Option DisplayContentItem → Bool
is_video none = false
is_video (some item) = elim item.content_type [ photo ↦ false | video ↦ true ]

unfoldable pub arm_content_timer_only : Controller → Controller
unfolding clear_content arm_content current_content
arm_content_timer_only s =
    let cleared = set_timers s (clear_content s.timers) in
    if is_loop s.content_mode && not s.is_paused && not (is_nil s.content_queue)
    then (if is_video (current_content s)
        then cleared
        else set_timers s (
            arm_content (s.effective_duration_seconds (current_content s) * 1000)
              (clear_content s.timers)))
    else cleared

unfoldable pub arm_ad_timer_only : Controller → Controller
unfolding arm_ad
arm_ad_timer_only s =
    if is_nil s.ads then s else set_timers s (arm_ad (s.ad_duration_seconds * 1000) s.timers)

-- `now` is the reading of `Date.now()`. A debounce that is pending is replaced.
unfoldable pub schedule_empty_queue_check : ℕ → Controller → Controller
schedule_empty_queue_check now s =
    let idle = record s { empty_queue_timer = false } in
    if not (is_nil s.content_queue)
    then record idle { empty_queue_reported_at = 0 }
    else if not (s.empty_queue_reported_at == 0) && ltb (now - s.empty_queue_reported_at) 60000
    then idle
    else record s { empty_queue_timer = true }

-- The debounce of 200 ms fires.
unfoldable pub fire_empty_queue : ℕ → Controller → Controller
fire_empty_queue now s =
    if s.empty_queue_timer
    then record s {
      empty_queue_timer = false;
      empty_queue_reported_at = now;
      reports = s.reports + 1;
    }
    else s

unfoldable pub arm_all_timers : ℕ → Controller → Controller
arm_all_timers now s =
    schedule_empty_queue_check now (
      arm_ad_timer_only (arm_content_timer_only (set_timers s (clear_ad (clear_content s.timers)))))

-- `onContentAdvanceListeners.forEach((fn) => fn())`
abbrev pub notify_listeners : Controller → Controller
notify_listeners s = record s { notified = s.notified ++ s.listeners }

unfoldable pub notify_content_advance : Controller → Controller
notify_content_advance s = arm_content_timer_only (notify_listeners s)
