-- ===== src/Display/Controller/Shown.antt =====
-- What an advance shows: an item of the queue, in rotation order, with the due items between.
pub mod Present
pub mod Outcome
pub mod Cadence
use kiosk_screen.Prelude.{ℕ, ◌≡◌, true, false, none, some, arith, or_else}
use kiosk_screen.Display.Item.{item_id, DisplayContentItem}
use kiosk_screen.Display.Controller.State.{
  Controller, is_nil, arm_content_timer_only, notify_content_advance,
}
use kiosk_screen.Display.Rotation.{pick_next}
use kiosk_screen.Display.Cadence.{regular_queue, filler_queue, reset_counter}
use kiosk_screen.Display.Controller.Advance.{
  with_due, with_filler, with_regular, count_transition, next_due, show_due, show_filler,
  show_regular, show_next, due_or_next, advance_content_regular,
}

-- The parts of the state that a notification leaves alone.
pub notify-frame :
    (s : Controller)
    → ((notify_content_advance s).current_content_id ≡ s.current_content_id)
      × ((notify_content_advance s).regular_cursor_id ≡ s.regular_cursor_id)
      × ((notify_content_advance s).recurring_counters ≡ s.recurring_counters)
      × ((notify_content_advance s).content_queue ≡ s.content_queue)
      × ((notify_content_advance s).content_mode ≡ s.content_mode)
      × ((notify_content_advance s).is_paused ≡ s.is_paused)
unfolding notify_content_advance arm_content_timer_only
notify-frame s = ground arith

pub count-frame :
    (s : Controller)
    → ((count_transition s).current_content_id ≡ s.current_content_id)
      × ((count_transition s).regular_cursor_id ≡ s.regular_cursor_id)
      × ((count_transition s).content_queue ≡ s.content_queue)
      × ((count_transition s).content_mode ≡ s.content_mode)
      × ((count_transition s).is_paused ≡ s.is_paused)
      × ((count_transition s).filler_cursor_id ≡ s.filler_cursor_id)
unfolding count_transition
count-frame s = ground arith

advance_content_regular-full :
    (now : ℕ) (s : Controller)
    → is_nil s.content_queue ≡ false
    → advance_content_regular now s
      ≡ due_or_next (next_due (count_transition s)) (count_transition s)
unfolding advance_content_regular
advance_content_regular-full now s full = rw full

-- The state that an advance goes on from, but for what it shows.
abbrev pub SameSetting : Controller → Controller → Type 0
SameSetting s t =
    (t.content_queue ≡ s.content_queue)
    × (t.content_mode ≡ s.content_mode)
    × (t.is_paused ≡ s.is_paused)

-- A due item interrupts the rotation: it is shown, its counter starts anew, and the regular cursor
-- stays, so that the regular rotation goes on where it was.
pub due_interrupts :
    (now : ℕ) (s : Controller) (item : DisplayContentItem)
    → is_nil s.content_queue ≡ false
    → next_due (count_transition s) ≡ some item
    → let t = advance_content_regular now s in
      (t.current_content_id ≡ some item.id)
      × (t.regular_cursor_id ≡ s.regular_cursor_id)
      × (t.recurring_counters ≡ reset_counter (count_transition s).recurring_counters item.id)
      × SameSetting s t
unfolding show_due
due_interrupts now s item full due =
    rw (advance_content_regular-full now s full, due)
      (ground (arith, notify-frame (with_due item (count_transition s)), count-frame s))

-- Where no item is due and there are regular items, the next item of the regular queue is shown,
-- the cursor goes to it and the counters stay as the transition left them.
pub regular_continues :
    (now : ℕ) (s : Controller)
    → is_nil (regular_queue s.content_queue) ≡ false
    → is_nil s.content_queue ≡ false
    → next_due (count_transition s) ≡ none
    → let t = advance_content_regular now s in
      let next = item_id (pick_next (regular_queue s.content_queue) s.regular_cursor_id) in
      (t.current_content_id ≡ next)
      × (t.regular_cursor_id ≡ next)
      × (t.recurring_counters ≡ (count_transition s).recurring_counters)
      × SameSetting s t
unfolding show_next show_regular
regular_continues now s some_regular full due =
    let counted = count_transition s in
    let next = item_id (pick_next (regular_queue s.content_queue) s.regular_cursor_id) in
    let same = count-frame s in
    let has : is_nil (regular_queue counted.content_queue) ≡ false = rw same.2 some_regular in
    let shown : item_id (pick_next (regular_queue counted.content_queue) counted.regular_cursor_id)
        ≡ next =
      rw (same.2, same.1) in
    rw (advance_content_regular-full now s full, due, has, shown)
      (ground (arith, notify-frame (with_regular next counted), same))

-- Where no item is due, with no regular item but recurring ones, these rotate, from the last
-- filler or from what is on screen.
pub filler_continues :
    (now : ℕ) (s : Controller)
    → is_nil (regular_queue s.content_queue) ≡ true
    → is_nil (filler_queue s.content_queue) ≡ false
    → is_nil s.content_queue ≡ false
    → next_due (count_transition s) ≡ none
    → let t = advance_content_regular now s in
      (t.current_content_id
        ≡ item_id (
            pick_next
              (filler_queue s.content_queue)
              (or_else s.filler_cursor_id s.current_content_id)))
      × SameSetting s t
unfolding show_next show_filler
filler_continues now s no_regular some_filler full due =
    let counted = count_transition s in
    let same = count-frame s in
    let next = item_id (
      pick_next (filler_queue s.content_queue) (or_else s.filler_cursor_id s.current_content_id)) in
    let has_not : is_nil (regular_queue counted.content_queue) ≡ true = rw same.2 no_regular in
    let has : is_nil (filler_queue counted.content_queue) ≡ false = rw same.2 some_filler in
    let shown : item_id (
          pick_next (filler_queue counted.content_queue)
            (or_else counted.filler_cursor_id counted.current_content_id))
        ≡ next =
      rw (same.2, same.5, same.0) in
    rw (advance_content_regular-full now s full, due, has_not, has, shown)
      (ground (arith, notify-frame (with_filler next counted), same))
