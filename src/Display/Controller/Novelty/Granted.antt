-- ===== src/Display/Controller/Novelty/Granted.antt =====
-- What a granted novelty is: shown, and not asked for again.
use kiosk_screen.Prelude.{
  ℕ, String, ◌≡◌, refl, ap, ◌∙◌, ◌≢◌, true, false, some, List, [], ◌∷◌, ◌++◌, arith, eq_refl, All,
  All-mono, JsSet, set_has, set_add, set_has-append, set_has-set_add,
}
use kiosk_screen.Display.Item.{DisplayContentItem}
use kiosk_screen.Display.Rotation.{pending_novelties}
use kiosk_screen.Display.Rotation.Queue.{IsPendingNovelty, pending_novelties_lem}
use kiosk_screen.Display.Controller.State.{
  Controller, Claim, arm_content_timer_only, notify_content_advance,
}
use kiosk_screen.Display.Controller.Advance.{with_granted, resolve_claim, novelty_skip_ids}
use kiosk_screen.Display.Controller.Inputs.{KioskControllerInputs, run_inputs_effect, still_novelty}
use kiosk_screen.Display.Controller.Polled.{poll-skips}

-- What a notification leaves alone.
notify_shows :
    (s : Controller)
    → ((notify_content_advance s).current_content_id ≡ s.current_content_id)
      × ((notify_content_advance s).novelty_claim_failures ≡ s.novelty_claim_failures)
      × ((notify_content_advance s).locally_shown_novelty_ids ≡ s.locally_shown_novelty_ids)
unfolding notify_content_advance arm_content_timer_only
notify_shows s = ground arith

granted :
    (now : ℕ) (s : Controller) (c : Claim)
    → s.claim ≡ some c
    → ((resolve_claim now true s).current_content_id ≡ some c.candidate.id)
      × (novelty_skip_ids (resolve_claim now true s)
          ≡ s.novelty_claim_failures ++ set_add s.locally_shown_novelty_ids c.candidate.id)
unfolding resolve_claim novelty_skip_ids
granted now s c asked = ground (arith, notify_shows (with_granted c s))

added_skipped :
    (s : Controller) (c : Claim)
    → set_has
        (s.novelty_claim_failures ++ set_add s.locally_shown_novelty_ids c.candidate.id)
        c.candidate.id
      ≡ true
added_skipped s c = ground (
  arith,
  set_has-append s.novelty_claim_failures (set_add s.locally_shown_novelty_ids c.candidate.id)
      c.candidate.id,
  set_has-set_add s.locally_shown_novelty_ids c.candidate.id c.candidate.id,
  eq_refl c.candidate.id,
)

skipped_ne :
    (ids : JsSet) (k : String)
    → set_has ids k ≡ true
    → (item : DisplayContentItem) → IsPendingNovelty ids item
    → item.id ≢ k
skipped_ne ids k skipped item h e = absurd (ground (arith, ap (set_has ids) e, skipped, h))

-- Polls that come one after the other, each with a queue that holds the novelty as one.
abbrev pub polled_with : List (ℕ × KioskControllerInputs) → Controller → Controller
polled_with [] s = s
polled_with ((now, inputs) ∷ polls) s = polled_with polls (run_inputs_effect now inputs s)

abbrev pub Holds : String → ℕ × KioskControllerInputs → Type 0
Holds id (now, inputs) = still_novelty inputs.content_queue false id ≡ true

polled_with-skips :
    (polls : List (ℕ × KioskControllerInputs)) (s : Controller) (id : String)
    → All (Holds id) polls
    → set_has (novelty_skip_ids (polled_with polls s)) id ≡ set_has (novelty_skip_ids s) id
polled_with-skips [] s id h = refl
polled_with-skips ((now, inputs) ∷ polls) s id (held, rest) =
    polled_with-skips polls (run_inputs_effect now inputs s) id rest
    ∙ poll-skips now inputs s id held

-- A novelty that the server granted is shown, and any number of polls that still hold it as a
-- novelty, one after the other, do not make it pending again: the items of any queue (that of the
-- last poll, or one that an advance has kept) that are pending after them have other ids.
pub granted_not_pending :
    (now : ℕ) (s : Controller) (c : Claim) (polls : List (ℕ × KioskControllerInputs))
    (queue : List DisplayContentItem)
    → s.claim ≡ some c
    → All (Holds c.candidate.id) polls
    → ((resolve_claim now true s).current_content_id ≡ some c.candidate.id)
      × All
          (λ item. item.id ≢ c.candidate.id)
          (pending_novelties queue
            (novelty_skip_ids (polled_with polls (resolve_claim now true s))))
granted_not_pending now s c polls queue asked held =
    let (shown, skip) = granted now s c asked in
    let ids = novelty_skip_ids (polled_with polls (resolve_claim now true s)) in
    let skipped : set_has ids c.candidate.id ≡ true =
      polled_with-skips polls (resolve_claim now true s) c.candidate.id held
      ∙ ap (λ (l : JsSet). set_has l c.candidate.id) skip
      ∙ added_skipped s c in
    (
      shown,
      All-mono (IsPendingNovelty ids) (λ item. item.id ≢ c.candidate.id)
          (pending_novelties queue ids) (skipped_ne ids c.candidate.id skipped)
          (pending_novelties_lem queue ids).0,
    )
