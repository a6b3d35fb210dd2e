-- ===== src/Display/Controller/Inputs.antt =====
-- A run of the effect of `bindInputs`, and the upkeep of counters and claims that it does.
use kiosk_screen.Prelude.{
  ℕ, max, String, Bool, true, false, not, ◌&&◌, ◌||◌, Option, none, some, List, [], ◌∷◌, map, ◌==◌,
  if◌then◌else◌, str_eq, is_some, opt_str_eq, length, filter, any, find, JsMap, map_get, map_set,
  decimal, bool_text, join_colon,
}
use kiosk_screen.Display.Item.{DisplayContentItem, ContentMode, is_loop, is_true, mode_eq, has_id}
use kiosk_screen.Display.Rotation.{pending_novelties}
use kiosk_screen.Display.Cadence.{
  filler_queue, has_recurring_items, build_cadence_snapshot, cadence_changes, clear_counters,
  prune_counters, reset_counter,
}
use kiosk_screen.Display.Fingerprint.{content_item_material_fingerprint}
use kiosk_screen.Display.Scheduler.{has_content_timer}
use kiosk_screen.Display.Controller.State.{
  Controller, DisplayAdLike, RotationConfig, Seen, is_nil, arm_ad_timer_only, arm_all_timers,
  schedule_empty_queue_check,
}

pub record KioskControllerInputs : Type 0 where
  pub content_mode : ContentMode
  pub content_queue : List DisplayContentItem
  pub ads : List DisplayAdLike
  pub fixed_content_id : Option String
  pub ad_duration_seconds : ℕ
  pub inline_ad_count : ℕ
  pub video_end_delay_seconds : ℕ

-- `${a.id}:${a.displayOrder}:${a.isActive}`
abbrev pub opt_bool_text : Option Bool → String
opt_bool_text none = "undefined"
opt_bool_text (some b) = bool_text b

abbrev pub ad_text : DisplayAdLike → String
ad_text a = join_colon (a.id ∷ decimal a.display_order ∷ opt_bool_text a.is_active ∷ [])

abbrev pub rotation_config : KioskControllerInputs → RotationConfig
rotation_config inputs = record {
  mode = inputs.content_mode;
  ads = map ad_text inputs.ads;
  fixed_id = inputs.fixed_content_id;
  ad_duration = inputs.ad_duration_seconds;
  inline_count = inputs.inline_ad_count;
  video_end = inputs.video_end_delay_seconds;
}

abbrev pub strs_eq : List String → List String → Bool
strs_eq [] [] = true
strs_eq (a ∷ as_) (b ∷ bs) = str_eq a b && strs_eq as_ bs
strs_eq _ _ = false

abbrev pub config_eq : RotationConfig → RotationConfig → Bool
config_eq a b =
    mode_eq a.mode b.mode
    && strs_eq a.ads b.ads
    && opt_str_eq a.fixed_id b.fixed_id
    && a.ad_duration == b.ad_duration
    && a.inline_count == b.inline_count
    && a.video_end == b.video_end

abbrev pub fingerprints : List DisplayContentItem → List String
fingerprints queue = map content_item_material_fingerprint queue

-- `new Map(queue.map((c) => [c.id, fingerprint(c)]))`
abbrev pub by_id : JsMap String → List DisplayContentItem → JsMap String
by_id m [] = m
by_id m (c ∷ queue) = by_id (map_set m c.id (content_item_material_fingerprint c)) queue

-- `rotationConfigFp !== lastRotationConfigFp`; before the first run the last one is the empty text.
abbrev pub config_changed : Option Seen → RotationConfig → Bool
config_changed none c = true
config_changed (some seen) c = not (config_eq c seen.config)

-- `fp !== lastFingerprint`
abbrev pub inputs_changed : Option Seen → RotationConfig → List String → Bool
inputs_changed none c queue = true
inputs_changed (some seen) c queue = not (config_eq c seen.config && strs_eq queue seen.queue)

abbrev pub seen_queue : Option Seen → JsMap String
seen_queue none = []
seen_queue (some seen) = seen.queue_by_id

abbrev pub same_counter : Option ℕ → ℕ → Bool
same_counter none n = false
same_counter (some m) n = m == n

abbrev pub counters_match : JsMap ℕ → JsMap ℕ → Bool
counters_match [] right = true
counters_match ((id, value) ∷ left) right =
    same_counter (map_get right id) value && counters_match left right

unfoldable pub same_recurring_counters : JsMap ℕ → JsMap ℕ → Bool
same_recurring_counters left right = length left == length right && counters_match left right

abbrev pub reset_all : List String → JsMap ℕ → JsMap ℕ
reset_all [] counters = counters
reset_all (id ∷ ids) counters = reset_all ids (reset_counter counters id)

abbrev pub ids_of : List DisplayContentItem → List String
ids_of items = map (λ (item : DisplayContentItem). item.id) items

-- The counters that the queue calls for.
unfoldable pub synced_counters : JsMap ℕ → JsMap ℕ → List DisplayContentItem → JsMap ℕ
synced_counters last counters queue =
    if has_recurring_items queue
    then reset_all (cadence_changes last queue)
        (prune_counters counters (ids_of (filler_queue queue)))
    else clear_counters

unfoldable pub sync_recurring_counters_from_queue :
    List DisplayContentItem → Controller → Controller
unfolding synced_counters same_recurring_counters
sync_recurring_counters_from_queue queue s =
    let next = synced_counters s.last_recurring_cadence_by_id s.recurring_counters queue in
    record s {
      last_recurring_cadence_by_id = build_cadence_snapshot queue;
      recurring_counters =
          if same_recurring_counters s.recurring_counters next then s.recurring_counters else next;
    }

-- `item.isNovelty === true` for the last item of the queue with the id
abbrev pub still_novelty : List DisplayContentItem → Bool → String → Bool
still_novelty [] found id = found
still_novelty (item ∷ queue) found id =
    still_novelty queue (if str_eq item.id id then is_true item.is_novelty else found) id

unfoldable pub prune_novelty_claim_failures : List DisplayContentItem → Controller → Controller
prune_novelty_claim_failures queue s = record s {
  novelty_claim_failures = filter (still_novelty queue false) s.novelty_claim_failures;
  locally_shown_novelty_ids = filter (still_novelty queue false) s.locally_shown_novelty_ids;
}

abbrev pub is_preserved : Option String → String → Bool
is_preserved none fp = false
is_preserved (some before) fp = str_eq before fp

-- The tests on the item that is on screen.
abbrev pub preserves_item : JsMap String → Bool → Option DisplayContentItem → Bool
preserves_item previous novelty_added none = false
preserves_item previous novelty_added (some item) =
    if not item.is_active
    then false
    else if novelty_added
    then true
    else is_preserved (map_get previous item.id) (content_item_material_fingerprint item)

unfoldable pub should_preserve_content_timer :
    List DisplayContentItem → ContentMode → JsMap String → Bool → Bool → Controller → Bool
unfolding has_content_timer
should_preserve_content_timer queue mode previous changed novelty_added s =
    if changed || not (is_loop mode) || s.is_paused || not (has_content_timer s.timers)
    then false
    else elim s.current_content_id [
      | none ↦ false
      | some id ↦
          if is_nil previous
          then false
          else preserves_item previous novelty_added (find (has_id id) queue)
    ]

-- `bindInputs` replaces the effect, with its memory, and the durations of the contents.
unfoldable pub bind_inputs : (Option DisplayContentItem → ℕ) → Controller → Controller
bind_inputs durations s = record s { effective_duration_seconds = durations; seen = none }

-- The inputs are copied into the signals.
unfoldable pub take_inputs : KioskControllerInputs → Controller → Controller
take_inputs inputs s =
    sync_recurring_counters_from_queue inputs.content_queue
      (record (prune_novelty_claim_failures inputs.content_queue s) {
        content_mode = inputs.content_mode;
        content_queue = inputs.content_queue;
        ads = inputs.ads;
        ad_duration_seconds = inputs.ad_duration_seconds;
        inline_ad_count = max 1 inputs.inline_ad_count;
        video_end_delay_seconds = inputs.video_end_delay_seconds;
        fixed_content_id = inputs.fixed_content_id;
      })

unfoldable pub novelty_added : KioskControllerInputs → JsMap String → Bool
novelty_added inputs previous =
    any (λ (item : DisplayContentItem). not (is_some (map_get previous item.id)))
      (pending_novelties inputs.content_queue [])

-- The inputs are copied into the signals and remembered.
abbrev pub remembered : KioskControllerInputs → Controller → Controller
remembered inputs s = record (take_inputs inputs s) {
  seen = some (record {
    config = rotation_config inputs;
    queue = fingerprints inputs.content_queue;
    queue_by_id = by_id [] inputs.content_queue;
  });
}

unfoldable pub run_inputs_effect : ℕ → KioskControllerInputs → Controller → Controller
run_inputs_effect now inputs s =
    let config = rotation_config inputs in
    let queue_fp = fingerprints inputs.content_queue in
    let taken = take_inputs inputs s in
    let preserve =
      should_preserve_content_timer inputs.content_queue inputs.content_mode (seen_queue s.seen)
        (config_changed s.seen config) (novelty_added inputs (seen_queue s.seen)) taken in
    let next = remembered inputs s in
    if inputs_changed s.seen config queue_fp
    then (if preserve
        then schedule_empty_queue_check now (arm_ad_timer_only next)
        else arm_all_timers now next)
    else taken
