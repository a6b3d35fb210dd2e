-- ===== src/Display/Controller/Advance.antt =====
-- How the controller moves to the next or the previous content and to the next ad. The request for a
-- novelty is the one `await` that the server answers: there the run stops with a `Claim`, and goes on
-- by `resolve_claim`. Continuations that wait for nothing run at once.
use kiosk_screen.Prelude.{
  ℕ, ◌+◌, ◌%◌, String, Bool, true, false, not, ◌&&◌, ◌||◌, Option, none, some, List, [], ◌∷◌, ◌++◌,
  if◌then◌else◌, or_else, length, head?, JsSet, set_add,
}
use kiosk_screen.Display.Item.{DisplayContentItem, is_loop, item_id}
use kiosk_screen.Display.Rotation.{pending_novelties, pick_next, pick_previous}
use kiosk_screen.Display.Cadence.{
  regular_queue, filler_queue, increment_counters, due_items, reset_counter,
}
use kiosk_screen.Display.Scheduler.{clear_content, clear_ad}
use kiosk_screen.Display.Controller.State.{
  Controller, Claim, is_nil, arm_ad_timer_only, schedule_empty_queue_check, notify_content_advance,
  set_timers,
}

unfoldable pub novelty_skip_ids : Controller → JsSet
novelty_skip_ids s = s.novelty_claim_failures ++ s.locally_shown_novelty_ids

unfoldable pub clear_novelty_burst : Controller → Controller
clear_novelty_burst s = record s {
  novelty_burst_active = false;
  novelty_burst_signal = false;
  locally_shown_novelty_ids = [];
}

abbrev pub counts_cadence : Controller → Bool
counts_cadence s = is_loop s.content_mode && not s.is_paused

-- The first step of a transition: the counters of the recurring items go up.
unfoldable pub count_transition : Controller → Controller
count_transition s =
    let fillers = filler_queue s.content_queue in
    if counts_cadence s && not (is_nil fillers)
    then record s { recurring_counters = increment_counters s.recurring_counters fillers }
    else s

-- `due[0]`, where due items are looked for
unfoldable pub next_due : Controller → Option DisplayContentItem
next_due s =
    if counts_cadence s then head? (due_items s.content_queue s.recurring_counters) else none

abbrev pub with_due : DisplayContentItem → Controller → Controller
with_due item s = record s {
  current_content_id = some item.id;
  recurring_counters = reset_counter s.recurring_counters item.id;
}

unfoldable pub show_due : DisplayContentItem → Controller → Controller
show_due item s = notify_content_advance (with_due item s)

abbrev pub with_filler : Option String → Controller → Controller
with_filler id s = record s { filler_cursor_id = id; current_content_id = id }

unfoldable pub show_filler : Controller → Controller
show_filler s =
    let next =
      pick_next (filler_queue s.content_queue) (or_else s.filler_cursor_id s.current_content_id) in
    notify_content_advance (with_filler (item_id next) s)

abbrev pub with_regular : Option String → Controller → Controller
with_regular id s = record s { regular_cursor_id = id; current_content_id = id }

unfoldable pub show_regular : Controller → Controller
show_regular s =
    let next = pick_next (regular_queue s.content_queue) s.regular_cursor_id in
    notify_content_advance (with_regular (item_id next) s)

abbrev pub with_nothing : Controller → Controller
with_nothing s = record s {
  current_content_id = none;
  regular_cursor_id = none;
  filler_cursor_id = none;
}

unfoldable pub show_nothing : Controller → Controller
show_nothing s = notify_content_advance (with_nothing s)

-- The last step: the next item of the regular queue, or of the fillers where there is none.
unfoldable pub show_next : Controller → Controller
show_next s =
    if is_nil (regular_queue s.content_queue)
    then (if is_nil (filler_queue s.content_queue) then show_nothing s else show_filler s)
    else show_regular s

unfoldable pub empty_advance : ℕ → Controller → Controller
empty_advance now s = schedule_empty_queue_check now (clear_novelty_burst (with_nothing s))

abbrev pub due_or_next : Option DisplayContentItem → Controller → Controller
due_or_next none s = show_next s
due_or_next (some item) s = show_due item s

unfoldable pub advance_content_regular : ℕ → Controller → Controller
advance_content_regular now s =
    if is_nil s.content_queue
    then empty_advance now s
    else (let counted = count_transition s in due_or_next (next_due counted) counted)

abbrev pub start : Controller → Controller
start s = record s { advance_in_progress = true }

-- The `finally` of `_advanceContentAsync`.
abbrev pub finish : Controller → Controller
finish s = record s { advance_in_progress = false }

abbrev pub with_burst_ended : Option String → Controller → Controller
with_burst_ended id s = record s {
  novelty_burst_active = false;
  novelty_burst_signal = false;
  locally_shown_novelty_ids = [];
  regular_cursor_id = id;
  current_content_id = id;
  resume_regular_cursor_id = none;
}

unfoldable pub end_burst : List DisplayContentItem → Controller → Controller
end_burst regular s =
    let next = pick_next regular s.resume_regular_cursor_id in
    notify_content_advance (with_burst_ended (item_id next) s)

-- The head of the `while` loop, and what stands behind the loop.
unfoldable pub novelty_round :
    ℕ → List DisplayContentItem → List DisplayContentItem → Controller → Controller
novelty_round now queue regular s = elim (pending_novelties queue (novelty_skip_ids s)) [
  | candidate ∷ rest ↦ record s {
    claim = some (record { queue = queue; regular_queue = regular; candidate = candidate });
  }
  | [] ↦
      if s.novelty_burst_active
      then finish (end_burst regular s)
      else finish (advance_content_regular now s)
]

unfoldable pub begin_burst : List DisplayContentItem → Controller → Controller
begin_burst queue s =
    if not (is_nil (pending_novelties queue (novelty_skip_ids s))) && not s.novelty_burst_active
    then record s {
      resume_regular_cursor_id = or_else s.current_content_id s.regular_cursor_id;
      novelty_burst_active = true;
      novelty_burst_signal = true;
    }
    else s

unfoldable pub advance_content_async : ℕ → Controller → Controller
advance_content_async now s =
    if s.advance_in_progress
    then s
    else if is_nil s.content_queue
    then schedule_empty_queue_check now (clear_novelty_burst (with_regular none s))
    else novelty_round now s.content_queue (regular_queue s.content_queue)
        (begin_burst s.content_queue (start s))

-- The server's answer to the claim: `true` where it granted the novelty.
abbrev pub with_granted : Claim → Controller → Controller
with_granted c s = record s {
  claim = none;
  locally_shown_novelty_ids = set_add s.locally_shown_novelty_ids c.candidate.id;
  current_content_id = some c.candidate.id;
}

abbrev pub with_refused : Claim → Controller → Controller
with_refused c s = record s {
  claim = none;
  novelty_claim_failures = set_add s.novelty_claim_failures c.candidate.id;
}

unfoldable pub resolve_claim : ℕ → Bool → Controller → Controller
resolve_claim now claimed s = elim s.claim [
  | none ↦ s
  | some c ↦
      if claimed
      then finish (notify_content_advance (with_granted c s))
      else novelty_round now c.queue c.regular_queue (with_refused c s)
]

unfoldable pub needs_novelty : Controller → Bool
needs_novelty s =
    is_loop s.content_mode
    && not s.is_paused
    && (s.novelty_burst_active
        || not (is_nil (pending_novelties s.content_queue (novelty_skip_ids s))))

unfoldable pub advance_content : ℕ → Controller → Controller
advance_content now s =
    if needs_novelty s then advance_content_async now s else advance_content_regular now s

unfoldable pub rewind_content : Controller → Controller
rewind_content s =
    let regular = regular_queue s.content_queue in
    let previous =
      if is_nil regular
      then pick_previous s.content_queue s.current_content_id
      else pick_previous regular s.regular_cursor_id in
    if is_nil s.content_queue then s else notify_content_advance (with_regular (item_id previous) s)

abbrev pub with_next_ad : Controller → Controller
with_next_ad s = record s {
  ad_index = (s.ad_index + 1) % length s.ads;
  ad_animation_run = (s.ad_animation_run + 1) % 2;
}

unfoldable pub advance_ad : Controller → Controller
advance_ad s = if is_nil s.ads then s else arm_ad_timer_only (with_next_ad s)

-- The content timer fires: its handle is dropped, then the content advances.
unfoldable pub fire_content_timer : ℕ → Controller → Controller
fire_content_timer now s = elim s.timers.content_timer [
  | none ↦ s
  | some d ↦ advance_content now (set_timers s (clear_content s.timers))
]

unfoldable pub fire_ad_timer : Controller → Controller
fire_ad_timer s = elim s.timers.ad_timer [
  | none ↦ s
  | some d ↦ advance_ad (set_timers s (clear_ad s.timers))
]
