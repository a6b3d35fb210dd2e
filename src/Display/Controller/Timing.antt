-- ===== src/Display/Controller/Timing.antt =====
-- The timers: the content rotates only in loop mode without a pause, and the ads always do.
pub mod Commands
pub mod Inputs
pub mod Runs
use kiosk_screen.Prelude.{
  ℕ, ◌+◌, ◌≡◌, ◌⊎◌, inl, inr, Bool, true, false, not, ◌&&◌, Option, none, some, List, ◌++◌, arith,
  if◌then◌else◌, Option-cases, is_some, or_else,
}
use kiosk_screen.Display.Item.{DisplayContentItem, ContentMode, is_loop}
use kiosk_screen.Display.Scheduler.{clear_ad, clear_content, Timers, min_duration_ms, AtLeast}
use kiosk_screen.Display.Controller.State.{
  Controller, DisplayAdLike, Seen, is_nil, set_timers, arm_content_timer_only, arm_ad_timer_only,
  arm_all_timers, schedule_empty_queue_check, notify_content_advance,
}
use kiosk_screen.Display.Item.{item_id}
use kiosk_screen.Display.Rotation.{pick_next, pick_previous}
use kiosk_screen.Display.Cadence.{regular_queue, filler_queue}
use kiosk_screen.Display.Controller.Advance.{
  with_due, with_filler, with_regular, with_nothing, with_burst_ended, with_granted, with_refused,
  start, clear_novelty_burst, count_transition, next_due, show_due, show_filler, show_regular,
  show_nothing, show_next, empty_advance, due_or_next, advance_content_regular, end_burst,
  novelty_round, begin_burst, advance_content_async, resolve_claim, advance_content, rewind_content,
  advance_ad, fire_content_timer, fire_ad_timer,
}

-- What the effect of `bindInputs` remembers of the mode and the ads is what the signals hold.
abbrev pub SeenAgrees : Option Seen → ContentMode → List DisplayAdLike → Type 0
SeenAgrees none mode ads = Unit {0}
SeenAgrees (some seen) mode ads = (seen.config.mode ≡ mode) × (is_nil seen.config.ads ≡ is_nil ads)

pub record Timed (mode : ContentMode) (paused : Bool) (ads : List DisplayAdLike)
    (seen : Option Seen) (t : Timers) : Type 0 where
  pub content : AtLeast min_duration_ms t.content_timer
  pub ad : AtLeast min_duration_ms t.ad_timer
  pub frozen : (is_some t.content_timer ≡ false) ⊎ ((is_loop mode ≡ true) × (paused ≡ false))
  pub ads_needed : is_some t.ad_timer && is_nil ads ≡ false
  pub ads_run : is_some seen && not (is_nil ads) && not (is_some t.ad_timer) ≡ false
  pub agrees : SeenAgrees seen mode ads

abbrev pub IsTimed : Controller → Type 0
IsTimed s = Timed s.content_mode s.is_paused s.ads s.seen s.timers

pub arm_content_timer_only-IsTimed :
    (s : Controller) → IsTimed s → IsTimed (arm_content_timer_only s)
unfolding arm_content_timer_only
arm_content_timer_only-IsTimed s h = ground arith

pub arm_ad_timer_only-IsTimed : (s : Controller) → IsTimed s → IsTimed (arm_ad_timer_only s)
unfolding arm_ad_timer_only
arm_ad_timer_only-IsTimed s h = ground arith

pub schedule_empty_queue_check-IsTimed :
    (now : ℕ) (s : Controller) → IsTimed s → IsTimed (schedule_empty_queue_check now s)
unfolding schedule_empty_queue_check
schedule_empty_queue_check-IsTimed now s h = ground arith

pub rearmed-IsTimed :
    (s : Controller)
    → SeenAgrees s.seen s.content_mode s.ads
    → IsTimed (
        arm_ad_timer_only
          (arm_content_timer_only (set_timers s (clear_ad (clear_content s.timers)))))
unfolding arm_ad_timer_only arm_content_timer_only clear_ad clear_content
rearmed-IsTimed s agrees = ground arith

-- Re-arming needs nothing of the timers that stood before.
pub arm_all_timers-IsTimed :
    (now : ℕ) (s : Controller)
    → SeenAgrees s.seen s.content_mode s.ads
    → IsTimed (arm_all_timers now s)
unfolding arm_all_timers
arm_all_timers-IsTimed now s agrees =
    schedule_empty_queue_check-IsTimed now
      (arm_ad_timer_only
        (arm_content_timer_only (set_timers s (clear_ad (clear_content s.timers)))))
      (rearmed-IsTimed s agrees)

pub notify_content_advance-IsTimed :
    (s : Controller) → IsTimed s → IsTimed (notify_content_advance s)
unfolding notify_content_advance
notify_content_advance-IsTimed s h =
    arm_content_timer_only-IsTimed (record s { notified = s.notified ++ s.listeners }) h

pub show_next-IsTimed : (s : Controller) → IsTimed s → IsTimed (show_next s)
unfolding show_next show_filler show_regular show_nothing
show_next-IsTimed s h =
    let regular = pick_next (regular_queue s.content_queue) s.regular_cursor_id in
    let filler =
      pick_next (filler_queue s.content_queue) (or_else s.filler_cursor_id s.current_content_id) in
    ground (
      arith,
      notify_content_advance-IsTimed (with_regular (item_id regular) s) h,
      notify_content_advance-IsTimed (with_filler (item_id filler) s) h,
      notify_content_advance-IsTimed (with_nothing s) h,
    )

pub due_or_next-IsTimed :
    (due : Option DisplayContentItem) (s : Controller) → IsTimed s → IsTimed (due_or_next due s)
unfolding show_due
due_or_next-IsTimed none s h = show_next-IsTimed s h
due_or_next-IsTimed (some item) s h = notify_content_advance-IsTimed (with_due item s) h

pub count_transition-IsTimed : (s : Controller) → IsTimed s → IsTimed (count_transition s)
unfolding count_transition
count_transition-IsTimed s h = ground arith

pub empty_advance-IsTimed : (now : ℕ) (s : Controller) → IsTimed s → IsTimed (empty_advance now s)
unfolding empty_advance clear_novelty_burst
empty_advance-IsTimed now s h =
    schedule_empty_queue_check-IsTimed now (clear_novelty_burst (with_nothing s)) h

pub advance_content_regular-IsTimed :
    (now : ℕ) (s : Controller) → IsTimed s → IsTimed (advance_content_regular now s)
unfolding advance_content_regular
advance_content_regular-IsTimed now s h =
    let counted = count_transition s in
    ground (
      arith,
      empty_advance-IsTimed now s h,
      due_or_next-IsTimed (next_due counted) counted (count_transition-IsTimed s h),
    )

pub novelty_round-IsTimed :
    (now : ℕ) (queue regular : List DisplayContentItem) (s : Controller)
    → IsTimed s
    → IsTimed (novelty_round now queue regular s)
unfolding novelty_round end_burst
novelty_round-IsTimed now queue regular s h =
    let next = pick_next regular s.resume_regular_cursor_id in
    ground (
      arith,
      notify_content_advance-IsTimed (with_burst_ended (item_id next) s) h,
      advance_content_regular-IsTimed now s h,
    )

pub begin_burst-IsTimed :
    (queue : List DisplayContentItem) (s : Controller) → IsTimed s → IsTimed (begin_burst queue s)
unfolding begin_burst
begin_burst-IsTimed queue s h = ground arith

pub advance_content-IsTimed :
    (now : ℕ) (s : Controller) → IsTimed s → IsTimed (advance_content now s)
unfolding advance_content advance_content_async begin_burst clear_novelty_burst
advance_content-IsTimed now s h = ground (
  arith,
  advance_content_regular-IsTimed now s h,
  schedule_empty_queue_check-IsTimed now (clear_novelty_burst (with_regular none s)) h,
  novelty_round-IsTimed now s.content_queue (regular_queue s.content_queue)
      (begin_burst s.content_queue (start s)) (begin_burst-IsTimed s.content_queue (start s) h),
)

pub resolve_claim-IsTimed :
    (now : ℕ) (claimed : Bool) (s : Controller) → IsTimed s → IsTimed (resolve_claim now claimed s)
unfolding resolve_claim
resolve_claim-IsTimed now claimed s h = elim (Option-cases s.claim) [
  | inl e ↦ rw (e, resolve_claim) h
  | inr (c, e) ↦ ground (
    arith,
    notify_content_advance-IsTimed (with_granted c s) h,
    novelty_round-IsTimed now c.queue c.regular_queue (with_refused c s) h,
  )
]

pub rewind_content-IsTimed : (s : Controller) → IsTimed s → IsTimed (rewind_content s)
unfolding rewind_content
rewind_content-IsTimed s h =
    let regular = regular_queue s.content_queue in
    let previous =
      if is_nil regular
      then pick_previous s.content_queue s.current_content_id
      else pick_previous regular s.regular_cursor_id in
    ground (arith, notify_content_advance-IsTimed (with_regular (item_id previous) s) h)

-- The state between the firing of the ad timer and the arming of the next one.
pub fire_ad_timer-IsTimed : (s : Controller) → IsTimed s → IsTimed (fire_ad_timer s)
unfolding fire_ad_timer advance_ad arm_ad_timer_only clear_ad
fire_ad_timer-IsTimed s h = ground arith

pub clear_content-IsTimed :
    (s : Controller) → IsTimed s → IsTimed (set_timers s (clear_content s.timers))
unfolding clear_content
clear_content-IsTimed s h = ground arith

pub fire_content_timer-IsTimed :
    (now : ℕ) (s : Controller) → IsTimed s → IsTimed (fire_content_timer now s)
unfolding fire_content_timer
fire_content_timer-IsTimed now s h = elim (Option-cases s.timers.content_timer) [
  | inl e ↦ rw (e, fire_content_timer) h
  | inr (d, e) ↦
      rw (e, fire_content_timer)
        (advance_content-IsTimed now (set_timers s (clear_content s.timers))
          (clear_content-IsTimed s h))
]
