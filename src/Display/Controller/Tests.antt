-- ===== src/Display/Controller/Tests.antt =====
-- Runs of the controller on a small queue.
use mathlib.Core.Path.{subst}
use kiosk_screen.Prelude.{
  ℕ, suc, ◌<◌, String, ◌≡◌, refl, sym, ap, ◌∙◌, ◌⊎◌, eq_iff, JsSet, set_has, ◌≢◌, inl, true, false,
  none, some, List, [], ◌∷◌, arith, All,
}
use kiosk_screen.Display.Item.{DisplayContentItem, loop}
use kiosk_screen.Display.Samples.{
  first_item, second_item, third_item, recurring_item, novelty_item, regular_items, mixed_items,
  rotating,
}
use kiosk_screen.Display.Payloads.{next_command, pause_command}
use kiosk_screen.Display.Rotation.{pending_novelties}
use kiosk_screen.Display.Cadence.{
  regular_queue, filler_queue, counter_of, increment_counters, due_items,
}
use kiosk_screen.Display.Controller.State.{Controller, Claim, is_nil, initial}
use kiosk_screen.Display.Controller.Advance.{
  advance_content, novelty_round, count_transition, next_due, resolve_claim, novelty_skip_ids,
}
use kiosk_screen.Display.Controller.Inputs.{KioskControllerInputs, run_inputs_effect, still_novelty}
use kiosk_screen.Display.Controller.Commands.{exit_fixed_mode}
use kiosk_screen.Display.Controller.Events.{Event, polled, navigated, content_fired, run}
use kiosk_screen.Display.Controller.Timing.{IsTimed}
use kiosk_screen.Display.Controller.Timing.Runs.{run-IsTimed}
use kiosk_screen.Display.Controller.Novelty.Refusals.{
  Refusals, no_refusal, one_refusal, poll-IsQuiet, refuse_all_ends,
}
use kiosk_screen.Display.Controller.Novelty.Granted.{polled_with, granted_not_pending}
use kiosk_screen.Display.Controller.Shown.Cadence.{
  IsRotating, advances, cursor_after, cadence_exact,
}
use kiosk_screen.Display.Controller.Shown.Present.{Shows}
use kiosk_screen.Display.Controller.Shown.Outcome.{Waits, advance-Shows}
use kiosk_screen.Display.Controller.Pinning.{enter_all, exit_fixed_mode-enter_all}

abbrev sample_inputs : KioskControllerInputs
sample_inputs = record {
  content_mode = loop;
  content_queue = mixed_items;
  ads = [];
  fixed_content_id = none;
  ad_duration_seconds = 5;
  inline_ad_count = 2;
  video_end_delay_seconds = 2;
}

abbrev sample_events : List (ℕ × Event)
sample_events =
    (1, polled sample_inputs)
    ∷ (2, navigated next_command none)
    ∷ (3, content_fired)
    ∷ (4, navigated pause_command none)
    ∷ []

run-IsTimed_example : IsTimed (run initial sample_events)
run-IsTimed_example = run-IsTimed sample_events

abbrev with_recurring : Controller
with_recurring = rotating (first_item ∷ recurring_item ∷ second_item ∷ third_item ∷ [])

with_recurring-IsRotating : IsRotating recurring_item with_recurring
unfolding regular_queue filler_queue
with_recurring-IsRotating = record {
  loops = refl;
  runs = refl;
  full = refl;
  fillers = refl;
  regulars = refl;
}

cadence_exact_example :
    ((n : ℕ)
      → n < 1
      → (advances 0 (suc n) with_recurring).current_content_id
        ≡ cursor_after (regular_queue with_recurring.content_queue) (suc n) (some "b"))
    × ((advances 0 2 with_recurring).current_content_id ≡ some "r")
    × (counter_of (advances 0 2 with_recurring).recurring_counters "r" ≡ 0)
    × ((advances 0 2 with_recurring).regular_cursor_id
        ≡ cursor_after (regular_queue with_recurring.content_queue) 1 (some "b"))
cadence_exact_example =
    cadence_exact 0 1 recurring_item with_recurring with_recurring-IsRotating refl refl

abbrev sample_claim : Claim
sample_claim = record {
  queue = mixed_items;
  regular_queue = regular_items;
  candidate = novelty_item;
}

abbrev claiming : Controller
claiming = record (rotating mixed_items) {
  claim = some sample_claim;
  advance_in_progress = true;
  novelty_burst_active = true;
}

-- A second novelty, for which the server is asked first.
abbrev other_novelty : DisplayContentItem
other_novelty = record novelty_item { id = "m"; display_order = 1 }

abbrev two_novelties : List DisplayContentItem
two_novelties = other_novelty ∷ mixed_items

abbrev two_claim : Claim
two_claim = record {
  queue = two_novelties;
  regular_queue = regular_items;
  candidate = other_novelty;
}

abbrev claiming_two : Controller
claiming_two = record claiming { claim = some two_claim; content_queue = two_novelties }

claiming_two-pending :
    pending_novelties two_novelties (novelty_skip_ids claiming_two)
    ≡ other_novelty ∷ novelty_item ∷ []
unfolding pending_novelties novelty_skip_ids
claiming_two-pending = refl

-- A poll that still holds the refused novelty, but not the one that comes next.
abbrev later_inputs : KioskControllerInputs
later_inputs = record sample_inputs { content_queue = other_novelty ∷ regular_items }

abbrev refused_once : Controller
refused_once = resolve_claim 0 false claiming_two

refused_once-skips : novelty_skip_ids refused_once ≡ "m" ∷ []
unfolding novelty_skip_ids resolve_claim novelty_round pending_novelties
refused_once-skips = refl

-- One of the ids that are skipped is the refused one, which the poll holds.
held :
    (id : String)
    → set_has ("m" ∷ []) id ≡ true
    → still_novelty later_inputs.content_queue false id ≡ true
held id h =
    let same : "m" ≡ id = ground (arith, eq_iff "m" id, h) in
    subst (λ (k : String). still_novelty later_inputs.content_queue false k ≡ true) same refl

abbrev refused_twice : Controller
refused_twice = resolve_claim 1 false (run_inputs_effect 1 later_inputs refused_once)

refused_twice-Refusals : Refusals 2 claiming_two refused_twice
refused_twice-Refusals =
    one_refusal 0 1 claiming_two claiming_two refused_twice ((refl, refl), λ id h. h)
      (one_refusal 1 0 refused_once (run_inputs_effect 1 later_inputs refused_once) refused_twice
        (poll-IsQuiet 1 later_inputs refused_once
          (λ id h. held id (ap (λ (l : JsSet). set_has l id) (sym refused_once-skips) ∙ h)))
        (no_refusal refused_twice refused_twice ((refl, refl), λ id h. h)))

refuse_all_ends_example : (refused_twice.claim ≡ none) × (refused_twice.advance_in_progress ≡ false)
refuse_all_ends_example =
    refuse_all_ends 2 claiming_two refused_twice two_claim (novelty_item ∷ []) refl
      claiming_two-pending (omega arith) refused_twice-Refusals

granted_not_pending_example :
    ((resolve_claim 0 true claiming).current_content_id ≡ some "n")
    × All
        (λ item. item.id ≢ "n")
        (pending_novelties two_novelties (
          novelty_skip_ids (polled_with ((1, sample_inputs) ∷ []) (resolve_claim 0 true claiming))))
granted_not_pending_example =
    granted_not_pending 0 claiming sample_claim ((1, sample_inputs) ∷ []) two_novelties refl
      (refl, tt)

with_recurring-regulars : is_nil (regular_queue with_recurring.content_queue) ≡ false
with_recurring-regulars = with_recurring-IsRotating.regulars

advance-Shows_example :
    Shows (advance_content 0 with_recurring)
    ⊎ Waits with_recurring (advance_content 0 with_recurring)
advance-Shows_example = advance-Shows 0 with_recurring (inl with_recurring-regulars)

abbrev nearly_due : Controller
nearly_due = record with_recurring { recurring_counters = ("r", 1) ∷ [] }

nearly_due-next : next_due (count_transition nearly_due) ≡ some recurring_item
unfolding next_due count_transition filler_queue due_items increment_counters
nearly_due-next = refl

abbrev only_fillers : Controller
only_fillers = rotating (recurring_item ∷ [])

exit_fixed_mode-enter_all_example :
    let t = exit_fixed_mode 0 (enter_all ("a" ∷ "c" ∷ []) with_recurring) in
    (t.current_content_id ≡ some "b")
    × (t.loop_cursor_before_fixed ≡ none)
    × (t.fixed_content_id ≡ none)
exit_fixed_mode-enter_all_example =
    exit_fixed_mode-enter_all 0 "a" "b" ("c" ∷ []) with_recurring refl refl
