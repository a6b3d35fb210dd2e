-- ===== src/Display/Controller/Timing/Runs.antt =====
-- Every event keeps the timers right, so every run does.
use kiosk_screen.Prelude.{ℕ, refl, inl, List, arith}
use kiosk_screen.Display.Controller.State.{initial}
use kiosk_screen.Display.Controller.Timing.{
  IsTimed, resolve_claim-IsTimed, fire_content_timer-IsTimed, fire_ad_timer-IsTimed,
}
use kiosk_screen.Display.Controller.Timing.Commands.{
  apply_navigation_command-IsTimed, enter_fixed_mode-IsTimed, exit_fixed_mode-IsTimed,
  on_video_ended-IsTimed,
}
use kiosk_screen.Display.Controller.Timing.Inputs.{run_inputs_effect-IsTimed}
use kiosk_screen.Display.Scheduler.{clear_all}
use kiosk_screen.Display.Controller.State.{Controller, fire_empty_queue}
use kiosk_screen.Display.Controller.Inputs.{bind_inputs}
use kiosk_screen.Display.Controller.Commands.{
  set_cursor, register_content_advance_listener, unsubscribe, detach,
}
use kiosk_screen.Display.Controller.Events.{
  Event, bound, polled, navigated, cursor_set, fixed_entered, fixed_exited, video_ended,
  content_fired, ad_fired, empty_fired, answered, registered, unsubscribed, detached, step, run,
  run_induction,
}

pub step-IsTimed : (s : Controller) (e : ℕ × Event) → IsTimed s → IsTimed (step s e)
unfolding step bind_inputs set_cursor fire_empty_queue register_content_advance_listener unsubscribe
    detach clear_all
step-IsTimed s (now, bound durations) h = ground arith
step-IsTimed s (now, polled inputs) h = run_inputs_effect-IsTimed now inputs s h
step-IsTimed s (now, navigated command id) h = apply_navigation_command-IsTimed now command id s h
step-IsTimed s (now, cursor_set id is_regular) h = h
step-IsTimed s (now, fixed_entered id) h = enter_fixed_mode-IsTimed id s h
step-IsTimed s (now, fixed_exited) h = exit_fixed_mode-IsTimed now s h
step-IsTimed s (now, video_ended) h = on_video_ended-IsTimed s h
step-IsTimed s (now, content_fired) h = fire_content_timer-IsTimed now s h
step-IsTimed s (now, ad_fired) h = fire_ad_timer-IsTimed s h
step-IsTimed s (now, empty_fired) h = ground arith
step-IsTimed s (now, answered claimed) h = resolve_claim-IsTimed now claimed s h
step-IsTimed s (now, registered listener) h = h
step-IsTimed s (now, unsubscribed listener) h = h
step-IsTimed s (now, detached) h = ground arith

initial-IsTimed : IsTimed initial
initial-IsTimed = record {
  content = tt;
  ad = tt;
  frozen = inl refl;
  ads_needed = refl;
  ads_run = refl;
  agrees = tt;
}

-- After any sequence of events from the start, an armed timer has at least 100 ms, a content timer
-- is armed only in loop mode without a pause, the ad timer is armed only when there are ads, and
-- while the controller is bound and has seen a poll since then (so not after it is detached or bound
-- anew, until the next poll) it is armed whenever there are ads.
pub run-IsTimed : (es : List (ℕ × Event)) → IsTimed (run initial es)
run-IsTimed es = run_induction IsTimed step-IsTimed initial es initial-IsTimed
