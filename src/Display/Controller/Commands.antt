-- ===== src/Display/Controller/Commands.antt =====
-- The commands that the display gives the controller.
use kiosk_screen.Prelude.{
  ℕ, ◌*◌, String, Bool, true, false, not, ◌&&◌, Option, none, some, List, [], ◌∷◌, ◌++◌, ◌==◌,
  if◌then◌else◌, non_empty, find,
}
use kiosk_screen.Display.Item.{DisplayContentItem, is_loop, is_fixed_mode, has_id}
use kiosk_screen.Display.Payloads.{
  RemoteCommand, next_command, previous_command, pause_command, resume_command, jump_to_command,
}
use kiosk_screen.Display.Cursor.{apply_set_cursor, apply_enter_fixed, apply_exit_fixed}
use kiosk_screen.Display.Scheduler.{clear_content, arm_content, clear_all}
use kiosk_screen.Display.Controller.State.{
  Controller, set_timers, arm_content_timer_only, arm_ad_timer_only, arm_all_timers,
}
use kiosk_screen.Display.Controller.Advance.{
  with_due, with_regular, advance_content, rewind_content,
}

unfoldable pub pause : Controller → Controller
unfolding clear_content
pause s =
    if is_loop s.content_mode
    then record s { is_paused = true; timers = clear_content s.timers }
    else s

unfoldable pub resume : Controller → Controller
resume s =
    if is_loop s.content_mode then arm_content_timer_only (record s { is_paused = false }) else s

-- `!target.recurringEveryXIterations`
abbrev pub is_falsy : Option ℕ → Bool
is_falsy none = true
is_falsy (some n) = n == 0

unfoldable pub jump_to_item : ℕ → DisplayContentItem → Controller → Controller
jump_to_item now target s = arm_all_timers now (
    if is_falsy target.recurring_every_x_iterations
    then with_regular (some target.id) s
    else with_due target s)

abbrev pub jump_found : ℕ → Option DisplayContentItem → Controller → Controller
jump_found now none s = s
jump_found now (some target) s = jump_to_item now target s

unfoldable pub jump_to : ℕ → Option String → Controller → Controller
jump_to now none s = s
jump_to now (some id) s =
    if is_loop s.content_mode && non_empty id
    then jump_found now (find (has_id id) s.content_queue) s
    else s

unfoldable pub apply_navigation_command :
    ℕ → RemoteCommand → Option String → Controller → Controller
apply_navigation_command now jump_to_command id s = jump_to now id s
apply_navigation_command now next_command id s =
    if is_loop s.content_mode then advance_content now s else s
apply_navigation_command now previous_command id s =
    if is_loop s.content_mode then rewind_content s else s
apply_navigation_command now pause_command id s = if is_loop s.content_mode then pause s else s
apply_navigation_command now resume_command id s = if is_loop s.content_mode then resume s else s

unfoldable pub set_cursor : Option String → Bool → Controller → Controller
unfolding apply_set_cursor
set_cursor item_id is_regular s =
    let next = apply_set_cursor item_id s.regular_cursor_id is_regular in
    record s {
      current_content_id = next.current_content_id;
      regular_cursor_id = next.regular_cursor_id;
    }

unfoldable pub enter_fixed_mode : String → Controller → Controller
enter_fixed_mode content_id s =
    let next = apply_enter_fixed content_id s.current_content_id s.loop_cursor_before_fixed in
    arm_ad_timer_only (record s {
      loop_cursor_before_fixed = next.loop_cursor_before_fixed;
      fixed_content_id = some content_id;
      current_content_id = next.current_content_id;
      timers = clear_content s.timers;
    })

abbrev pub with_exit : Controller → Controller
with_exit s =
    let next = apply_exit_fixed s.current_content_id s.loop_cursor_before_fixed in
    record s {
      fixed_content_id = none;
      current_content_id = next.current_content_id;
      loop_cursor_before_fixed = next.loop_cursor_before_fixed;
    }

unfoldable pub exit_fixed_mode : ℕ → Controller → Controller
unfolding apply_exit_fixed
exit_fixed_mode now s = arm_all_timers now (with_exit s)

unfoldable pub on_video_ended : Controller → Controller
unfolding clear_content arm_content
on_video_ended s =
    if is_fixed_mode s.content_mode
    then s
    else if not (is_loop s.content_mode)
    then s
    else if s.is_paused
    then s
    else set_timers s (arm_content (s.video_end_delay_seconds * 1000) (clear_content s.timers))

unfoldable pub register_content_advance_listener : ℕ → Controller → Controller
register_content_advance_listener listener s = record s { listeners = s.listeners ++ listener ∷ [] }

-- `splice(indexOf(listener), 1)`: the first registration goes.
abbrev pub remove_first : ℕ → List ℕ → List ℕ
remove_first listener [] = []
remove_first listener (x ∷ xs) = if x == listener then xs else x ∷ remove_first listener xs

unfoldable pub unsubscribe : ℕ → Controller → Controller
unsubscribe listener s = record s { listeners = remove_first listener s.listeners }

unfoldable pub detach : Controller → Controller
unfolding clear_all
detach s = record s {
  timers = clear_all s.timers;
  empty_queue_timer = false;
  listeners = [];
  seen = none;
}
