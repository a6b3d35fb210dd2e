-- ===== src/Display/Controller/Novelty.antt =====
-- The claims of novelties: what the server is asked for, and what a refusal leaves.
pub mod Refusals
pub mod Granted
use kiosk_screen.Prelude.{
  ℕ, zero, suc, ◌≤◌, ◌<◌, ◌||◌, String, ◌≡◌, refl, sym, ap, ◌∙◌, ◌≢◌, inl, inr, Bool, true, false,
  not, ◌&&◌, Option, none, some, List, [], ◌∷◌, ◌++◌, arith, eq_iff, eq_refl, str_eq, or_else,
  length, filter, All, length-sort_by, length-filter-sort_by, length-filter-split, List-cases,
  All-mono, JsSet, set_has, set_add, set_has-append, set_has-set_add,
}
use kiosk_screen.Display.Item.{item_id, is_true, DisplayContentItem}
use kiosk_screen.Display.Controller.State.{
  Controller, Claim, arm_content_timer_only, schedule_empty_queue_check, notify_content_advance,
}
use kiosk_screen.Display.Rotation.{pick_next, pending_novelties, display_order}
use kiosk_screen.Display.Cadence.{regular_queue, filler_queue}
use kiosk_screen.Display.Controller.Advance.{
  with_due, with_filler, with_regular, with_nothing, with_burst_ended, with_granted, with_refused,
  clear_novelty_burst, count_transition, next_due, show_due, show_filler, show_regular,
  show_nothing, show_next, empty_advance, due_or_next, advance_content_regular, end_burst,
  novelty_round, resolve_claim, novelty_skip_ids,
}
use kiosk_screen.Display.Controller.Inputs.{
  KioskControllerInputs, run_inputs_effect, prune_novelty_claim_failures, still_novelty,
}
use kiosk_screen.Display.Controller.Polled.{run_inputs_effect-SameAdvance, poll-skips}
use mathlib.Core.Path.{fun_ext, subst}
use kiosk_screen.Display.Rotation.Queue.{IsPendingNovelty, pending_novelties_lem}

abbrev pub is_fresh : JsSet → DisplayContentItem → Bool
is_fresh skip item = is_true item.is_novelty && not (set_has skip item.id)

abbrev same_id : DisplayContentItem → DisplayContentItem → Bool
same_id c item = str_eq c.id item.id

is_fresh-set_add :
    (failures shown : JsSet) (c item : DisplayContentItem)
    → is_fresh (set_add failures c.id ++ shown) item
      ≡ (is_fresh (failures ++ shown) item && not (same_id c item))
is_fresh-set_add failures shown c item = ground (
  arith,
  set_has-append (set_add failures c.id) shown item.id,
  set_has-append failures shown item.id,
  set_has-set_add failures c.id item.id,
)

length-filter_pos :
    (p : DisplayContentItem → Bool) (x : DisplayContentItem) (xs : List DisplayContentItem)
    → p x ≡ true
    → 0 < length (filter p (x ∷ xs))
length-filter_pos p x xs h = ground arith

-- A refusal leaves fewer novelties to ask for.
pub pending_novelties-shrinks :
    (queue : List DisplayContentItem) (failures shown : JsSet) (c : DisplayContentItem)
    (rest : List DisplayContentItem)
    → pending_novelties queue (failures ++ shown) ≡ c ∷ rest
    → length (pending_novelties queue (set_add failures c.id ++ shown)) < length (c ∷ rest)
unfolding pending_novelties
pending_novelties-shrinks queue failures shown c rest e =
    let old = is_fresh (failures ++ shown) in
    omega (
      arith,
      length-filter_pos (same_id c) c rest (eq_refl c.id),
      length-filter-split old (same_id c) queue,
      length-filter-sort_by display_order (same_id c) (filter old queue),
      ap (λ (l : List DisplayContentItem). length (filter (same_id c) l)) e,
      ap (λ (l : List DisplayContentItem). length l) e,
      length-sort_by display_order (filter old queue),
      length-sort_by display_order (filter (is_fresh (set_add failures c.id ++ shown)) queue),
      ap (λ (p : DisplayContentItem → Bool). length (filter p queue))
          (fun_ext (is_fresh-set_add failures shown c)),
    )

-- What stands of an advance: the claim and the mark of the one that is under way.
abbrev pub SameClaim : Controller → Controller → Type 0
SameClaim s t = (t.claim ≡ s.claim) × (t.advance_in_progress ≡ s.advance_in_progress)

notify-SameClaim : (s : Controller) → SameClaim s (notify_content_advance s)
unfolding notify_content_advance arm_content_timer_only
notify-SameClaim s = ground arith

schedule-SameClaim : (now : ℕ) (s : Controller) → SameClaim s (schedule_empty_queue_check now s)
unfolding schedule_empty_queue_check
schedule-SameClaim now s = ground arith

due_or_next-SameClaim :
    (due : Option DisplayContentItem) (s : Controller) → SameClaim s (due_or_next due s)
unfolding show_due show_next show_filler show_regular show_nothing
due_or_next-SameClaim (some item) s = notify-SameClaim (with_due item s)
due_or_next-SameClaim none s =
    let regular = pick_next (regular_queue s.content_queue) s.regular_cursor_id in
    let filler =
      pick_next (filler_queue s.content_queue) (or_else s.filler_cursor_id s.current_content_id) in
    ground (
      arith,
      notify-SameClaim (with_regular (item_id regular) s),
      notify-SameClaim (with_filler (item_id filler) s),
      notify-SameClaim (with_nothing s),
    )

advance_content_regular-SameClaim :
    (now : ℕ) (s : Controller) → SameClaim s (advance_content_regular now s)
unfolding advance_content_regular empty_advance count_transition clear_novelty_burst
advance_content_regular-SameClaim now s =
    let counted = count_transition s in
    ground (
      arith,
      schedule-SameClaim now (clear_novelty_burst (with_nothing s)),
      due_or_next-SameClaim (next_due counted) counted,
    )

-- A round either asks for the first pending novelty or ends the advance.
pub novelty_round-claim :
    (now : ℕ) (queue regular : List DisplayContentItem) (s : Controller)
    → pending_novelties queue (novelty_skip_ids s) ≡ []
    → s.claim ≡ none
    → ((novelty_round now queue regular s).claim ≡ none)
      × ((novelty_round now queue regular s).advance_in_progress ≡ false)
unfolding novelty_round end_burst
novelty_round-claim now queue regular s e free =
    let next = pick_next regular s.resume_regular_cursor_id in
    ground (
      arith,
      notify-SameClaim (with_burst_ended (item_id next) s),
      advance_content_regular-SameClaim now s,
    )

pub resolve_claim-refused :
    (now : ℕ) (s : Controller) (c : Claim)
    → s.claim ≡ some c
    → resolve_claim now false s ≡ novelty_round now c.queue c.regular_queue (with_refused c s)
unfolding resolve_claim
resolve_claim-refused now s c e = rw (e, resolve_claim)

abbrev pub asking : Claim → DisplayContentItem → Controller → Controller
asking c x s = record s {
  claim = some (record { queue = c.queue; regular_queue = c.regular_queue; candidate = x });
}

pub novelty_round-asks :
    (now : ℕ) (c : Claim) (s : Controller) (x : DisplayContentItem) (rest : List DisplayContentItem)
    → pending_novelties c.queue (novelty_skip_ids s) ≡ x ∷ rest
    → novelty_round now c.queue c.regular_queue s ≡ asking c x s
unfolding novelty_round
novelty_round-asks now c s x rest e = rw (e, novelty_round)
