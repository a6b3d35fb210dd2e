-- ===== src/Display/Controller/Timing/Commands.antt =====
-- The commands keep the timers right.
use kiosk_screen.Prelude.{
  ℕ, String, inl, inr, ◌&&◌, Option, none, some, arith, if◌then◌else◌, if_both, Option-cases,
  non_empty, find,
}
use kiosk_screen.Display.Controller.Timing.{
  IsTimed, arm_all_timers-IsTimed, advance_content-IsTimed, rewind_content-IsTimed,
}
use kiosk_screen.Display.Item.{has_id}
use kiosk_screen.Display.Controller.Commands.{is_falsy, with_exit}
use kiosk_screen.Display.Item.{DisplayContentItem, is_loop}
use kiosk_screen.Display.Payloads.{
  RemoteCommand, next_command, previous_command, pause_command, resume_command, jump_to_command,
}
use kiosk_screen.Display.Scheduler.{clear_content}
use kiosk_screen.Display.Controller.State.{Controller, arm_content_timer_only, arm_ad_timer_only}
use kiosk_screen.Display.Controller.Advance.{with_due, with_regular}
use kiosk_screen.Display.Controller.Commands.{
  pause, resume, jump_to_item, jump_to, apply_navigation_command, enter_fixed_mode, exit_fixed_mode,
  on_video_ended,
}

pub pause-IsTimed : (s : Controller) → IsTimed s → IsTimed (pause s)
unfolding pause
pause-IsTimed s h = ground arith

-- Resuming re-arms the content timer whatever it was.
pub resume-IsTimed : (s : Controller) → IsTimed s → IsTimed (resume s)
unfolding resume arm_content_timer_only
resume-IsTimed s h = ground arith

pub jump_to_item-IsTimed :
    (now : ℕ) (target : DisplayContentItem) (s : Controller)
    → IsTimed s
    → IsTimed (jump_to_item now target s)
unfolding jump_to_item
jump_to_item-IsTimed now target s h =
    arm_all_timers-IsTimed now
      (if is_falsy target.recurring_every_x_iterations
        then with_regular (some target.id) s
        else with_due target s)
      (ground (arith, h.agrees))

pub jump_to-IsTimed :
    (now : ℕ) (id : Option String) (s : Controller) → IsTimed s → IsTimed (jump_to now id s)
unfolding jump_to
jump_to-IsTimed now none s h = h
jump_to-IsTimed now (some id) s h =
    if_both IsTimed (is_loop s.content_mode && non_empty id)
      (elim (Option-cases (find (has_id id) s.content_queue)) [
        | inl e ↦ rw e h
        | inr (target, e) ↦ rw e (jump_to_item-IsTimed now target s h)
      ])
      h

pub apply_navigation_command-IsTimed :
    (now : ℕ) (command : RemoteCommand) (id : Option String) (s : Controller)
    → IsTimed s
    → IsTimed (apply_navigation_command now command id s)
unfolding apply_navigation_command
apply_navigation_command-IsTimed now jump_to_command id s h = jump_to-IsTimed now id s h
apply_navigation_command-IsTimed now next_command id s h =
    if_both IsTimed (is_loop s.content_mode) (advance_content-IsTimed now s h) h
apply_navigation_command-IsTimed now previous_command id s h =
    if_both IsTimed (is_loop s.content_mode) (rewind_content-IsTimed s h) h
apply_navigation_command-IsTimed now pause_command id s h =
    if_both IsTimed (is_loop s.content_mode) (pause-IsTimed s h) h
apply_navigation_command-IsTimed now resume_command id s h =
    if_both IsTimed (is_loop s.content_mode) (resume-IsTimed s h) h

pub enter_fixed_mode-IsTimed :
    (id : String) (s : Controller) → IsTimed s → IsTimed (enter_fixed_mode id s)
unfolding enter_fixed_mode arm_ad_timer_only clear_content
enter_fixed_mode-IsTimed id s h = ground arith

pub on_video_ended-IsTimed : (s : Controller) → IsTimed s → IsTimed (on_video_ended s)
unfolding on_video_ended
on_video_ended-IsTimed s h = ground arith

pub exit_fixed_mode-IsTimed :
    (now : ℕ) (s : Controller) → IsTimed s → IsTimed (exit_fixed_mode now s)
unfolding exit_fixed_mode
exit_fixed_mode-IsTimed now s h = arm_all_timers-IsTimed now (with_exit s) h.agrees
