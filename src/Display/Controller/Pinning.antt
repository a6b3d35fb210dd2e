-- ===== src/Display/Controller/Pinning.antt =====
-- Pinning an item, leaving fixed mode, and the jumps that change nothing.
use kiosk_screen.Prelude.{ℕ, String, ◌≡◌, ◌⊎◌, false, none, some, List, [], ◌∷◌, arith, find}
use kiosk_screen.Display.Item.{has_id, is_loop}
use kiosk_screen.Display.Payloads.{jump_to_command}
use kiosk_screen.Display.Controller.State.{
  Controller, arm_content_timer_only, arm_ad_timer_only, arm_all_timers, schedule_empty_queue_check,
}
use kiosk_screen.Display.Cursor.{apply_enter_fixed}
use kiosk_screen.Display.Controller.Commands.{
  with_exit, jump_to, apply_navigation_command, enter_fixed_mode, exit_fixed_mode,
}

-- The items pinned one after the other.
abbrev pub enter_all : List String → Controller → Controller
enter_all [] s = s
enter_all (id ∷ ids) s = enter_all ids (enter_fixed_mode id s)

enter-loop_cursor :
    (id k : String) (s : Controller)
    → s.loop_cursor_before_fixed ≡ some k
    → (enter_fixed_mode id s).loop_cursor_before_fixed ≡ some k
unfolding enter_fixed_mode arm_ad_timer_only apply_enter_fixed
enter-loop_cursor id k s h = ground arith

enter_first :
    (id k : String) (s : Controller)
    → s.loop_cursor_before_fixed ≡ none
    → s.current_content_id ≡ some k
    → (enter_fixed_mode id s).loop_cursor_before_fixed ≡ some k
unfolding enter_fixed_mode arm_ad_timer_only apply_enter_fixed
enter_first id k s h e = ground arith

enter_all-loop_cursor :
    (ids : List String) (k : String) (s : Controller)
    → s.loop_cursor_before_fixed ≡ some k
    → (enter_all ids s).loop_cursor_before_fixed ≡ some k
enter_all-loop_cursor [] k s h = h
enter_all-loop_cursor (id ∷ ids) k s h =
    enter_all-loop_cursor ids k (enter_fixed_mode id s) (enter-loop_cursor id k s h)

arm_all-cursors :
    (now : ℕ) (s : Controller)
    → ((arm_all_timers now s).current_content_id ≡ s.current_content_id)
      × ((arm_all_timers now s).loop_cursor_before_fixed ≡ s.loop_cursor_before_fixed)
      × ((arm_all_timers now s).regular_cursor_id ≡ s.regular_cursor_id)
      × ((arm_all_timers now s).fixed_content_id ≡ s.fixed_content_id)
      × ((arm_all_timers now s).recurring_counters ≡ s.recurring_counters)
unfolding arm_all_timers schedule_empty_queue_check arm_ad_timer_only arm_content_timer_only
arm_all-cursors now s = (ground arith, ground arith, ground arith, ground arith, ground arith)

exit_restores :
    (now : ℕ) (k : String) (s : Controller)
    → s.loop_cursor_before_fixed ≡ some k
    → ((exit_fixed_mode now s).current_content_id ≡ some k)
      × ((exit_fixed_mode now s).loop_cursor_before_fixed ≡ none)
      × ((exit_fixed_mode now s).fixed_content_id ≡ none)
unfolding exit_fixed_mode
exit_restores now k s h = ground (arith, arm_all-cursors now (with_exit s))

-- However many items are pinned one after the other, with nothing remembered before, leaving fixed
-- mode brings back the item that was on screen before the first of them, and nothing stays pinned
-- or remembered.
pub exit_fixed_mode-enter_all :
    (now : ℕ) (id k : String) (ids : List String) (s : Controller)
    → s.loop_cursor_before_fixed ≡ none
    → s.current_content_id ≡ some k
    → let t = exit_fixed_mode now (enter_all (id ∷ ids) s) in
      (t.current_content_id ≡ some k)
      × (t.loop_cursor_before_fixed ≡ none)
      × (t.fixed_content_id ≡ none)
exit_fixed_mode-enter_all now id k ids s free e =
    exit_restores now k (enter_all (id ∷ ids) s)
      (enter_all-loop_cursor ids k (enter_fixed_mode id s) (enter_first id k s free e))

-- A jump outside loop mode, or to an id that no item of the queue has, changes nothing.
pub jump_to_ignored :
    (now : ℕ) (id : String) (s : Controller)
    → (is_loop s.content_mode ≡ false) ⊎ (find (has_id id) s.content_queue ≡ none)
    → apply_navigation_command now jump_to_command (some id) s ≡ s
unfolding apply_navigation_command jump_to
jump_to_ignored now id s h = ground arith
