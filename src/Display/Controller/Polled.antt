-- ===== src/Display/Controller/Polled.antt =====
-- What a poll leaves alone: the claim that the server was asked for, the item on screen, and the
-- novelties that are skipped as long as the queue still holds them as novelties.
use kiosk_screen.Prelude.{
  ℕ, String, ◌≡◌, refl, true, false, arith, filter, [], ◌∷◌, Bool, eq_iff, JsSet, set_has,
  set_has-append,
}
use kiosk_screen.Display.Controller.State.{
  Controller, arm_content_timer_only, arm_ad_timer_only, arm_all_timers, schedule_empty_queue_check,
}
use kiosk_screen.Display.Controller.Advance.{novelty_skip_ids}
use kiosk_screen.Display.Controller.Inputs.{
  KioskControllerInputs, take_inputs, remembered, run_inputs_effect, prune_novelty_claim_failures,
  sync_recurring_counters_from_queue, still_novelty,
}

-- What the novelty of an advance needs of a state.
abbrev pub SameAdvance : Controller → Controller → Type 0
SameAdvance s t =
    (t.claim ≡ s.claim)
    × (t.advance_in_progress ≡ s.advance_in_progress)
    × (t.current_content_id ≡ s.current_content_id)
    × (t.novelty_claim_failures ≡ s.novelty_claim_failures)
    × (t.locally_shown_novelty_ids ≡ s.locally_shown_novelty_ids)

arm-SameAdvance :
    (now : ℕ) (s : Controller)
    → SameAdvance s (arm_all_timers now s)
      × SameAdvance s (schedule_empty_queue_check now (arm_ad_timer_only s))
unfolding arm_all_timers schedule_empty_queue_check arm_ad_timer_only arm_content_timer_only
arm-SameAdvance now s = ground arith

-- Beside the pruning, a poll leaves the advance as it is.
pub run_inputs_effect-SameAdvance :
    (now : ℕ) (inputs : KioskControllerInputs) (s : Controller)
    → SameAdvance
        (prune_novelty_claim_failures inputs.content_queue s)
        (run_inputs_effect now inputs s)
unfolding run_inputs_effect take_inputs prune_novelty_claim_failures
    sync_recurring_counters_from_queue
run_inputs_effect-SameAdvance now inputs s =
    ground (arith, arm-SameAdvance now (remembered inputs s))

set_has-filter :
    (p : String → Bool) (ids : JsSet) (id : String)
    → p id ≡ true
    → set_has (filter p ids) id ≡ set_has ids id
set_has-filter p [] id h = refl
set_has-filter p (x ∷ ids) id h =
    ground (arith, set_has-filter p ids id h, eq_iff x id, eq_iff id x)

-- A skipped novelty that the new queue still holds as one stays skipped.
pub poll-skips :
    (now : ℕ) (inputs : KioskControllerInputs) (s : Controller) (id : String)
    → still_novelty inputs.content_queue false id ≡ true
    → set_has (novelty_skip_ids (run_inputs_effect now inputs s)) id
      ≡ set_has (novelty_skip_ids s) id
unfolding novelty_skip_ids prune_novelty_claim_failures
poll-skips now inputs s id h =
    let (_, _, _, failures, shown) = run_inputs_effect-SameAdvance now inputs s in
    let kept = still_novelty inputs.content_queue false in
    ground (
      arith,
      failures,
      shown,
      set_has-append (run_inputs_effect now inputs s).novelty_claim_failures
          (run_inputs_effect now inputs s).locally_shown_novelty_ids id,
      set_has-append s.novelty_claim_failures s.locally_shown_novelty_ids id,
      set_has-filter kept s.novelty_claim_failures id h,
      set_has-filter kept s.locally_shown_novelty_ids id h,
    )
