-- ===== src/Display/Scheduler.antt =====
-- frontend/src/app/display/rotation-scheduler.service.ts. A timer is the duration it was armed with,
-- in milliseconds; when an armed timer fires is the environment's choice.
use kiosk_screen.Prelude.{ℕ, ◌≤◌, max, Bool, Option, none, some, List, [], ◌∷◌, arith, is_some}

pub record Timers : Type 0 where
  pub content_timer : Option ℕ
  pub ad_timer : Option ℕ

abbrev pub min_duration_ms : ℕ
min_duration_ms = 100

unfoldable pub clear_content : Timers → Timers
clear_content t = record t { content_timer = none }

unfoldable pub clear_ad : Timers → Timers
clear_ad t = record t { ad_timer = none }

unfoldable pub arm_content : ℕ → Timers → Timers
unfolding clear_content
arm_content duration_ms t = record (clear_content t) {
  content_timer = some (max duration_ms min_duration_ms);
}

unfoldable pub arm_ad : ℕ → Timers → Timers
unfolding clear_ad
arm_ad duration_ms t = record (clear_ad t) { ad_timer = some (max duration_ms min_duration_ms) }

unfoldable pub clear_all : Timers → Timers
unfolding clear_content clear_ad
clear_all t = clear_ad (clear_content t)

unfoldable pub has_content_timer : Timers → Bool
has_content_timer t = is_some t.content_timer

unfoldable pub has_ad_timer : Timers → Bool
has_ad_timer t = is_some t.ad_timer

pub data TimerOp : Type 0 where
  arm_content_op arm_ad_op : ℕ → TimerOp
  clear_content_op clear_ad_op clear_all_op : TimerOp

abbrev pub timer_step : Timers → TimerOp → Timers
timer_step t (arm_content_op d) = arm_content d t
timer_step t (arm_ad_op d) = arm_ad d t
timer_step t clear_content_op = clear_content t
timer_step t clear_ad_op = clear_ad t
timer_step t clear_all_op = clear_all t

abbrev pub timer_run : Timers → List TimerOp → Timers
timer_run t [] = t
timer_run t (op ∷ ops) = timer_run (timer_step t op) ops

abbrev pub AtLeast : ℕ → Option ℕ → Type 0
AtLeast n none = Unit {0}
AtLeast n (some d) = n ≤ d

pub record IsClamped (t : Timers) : Type 0 where
  pub content : AtLeast min_duration_ms t.content_timer
  pub ad : AtLeast min_duration_ms t.ad_timer

pub timer_step-IsClamped : (t : Timers) (op : TimerOp) → IsClamped t → IsClamped (timer_step t op)
unfolding arm_content arm_ad clear_all
timer_step-IsClamped t (arm_content_op d) h = ground arith
timer_step-IsClamped t _ h = ground arith

-- No sequence of calls arms a timer for less than 100 ms, whatever durations it passes.
pub timer_run-IsClamped :
    (t : Timers) (ops : List TimerOp) → IsClamped t → IsClamped (timer_run t ops)
timer_run-IsClamped t [] h = h
timer_run-IsClamped t (op ∷ ops) h =
    timer_run-IsClamped (timer_step t op) ops (timer_step-IsClamped t op h)
