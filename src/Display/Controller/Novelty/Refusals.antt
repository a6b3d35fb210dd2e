-- ===== src/Display/Controller/Novelty/Refusals.antt =====
-- Refusals, one after the other: the server is asked only so often.
use kiosk_screen.Prelude.{
  ℕ, zero, suc, ◌≤◌, ◌<◌, ◌||◌, String, ◌≡◌, refl, sym, ap, ◌∙◌, inl, inr, Bool, true, false, none,
  some, List, [], ◌∷◌, arith, str_eq, length, filter, length-sort_by, List-cases, set_has, set_add,
  set_has-append, set_has-set_add,
}
use kiosk_screen.Display.Item.{DisplayContentItem}
use kiosk_screen.Display.Controller.State.{Controller, Claim}
use kiosk_screen.Display.Rotation.{pending_novelties, display_order}
use kiosk_screen.Display.Controller.Advance.{with_refused, resolve_claim, novelty_skip_ids}
use kiosk_screen.Display.Controller.Inputs.{
  KioskControllerInputs, run_inputs_effect, prune_novelty_claim_failures, still_novelty,
}
use kiosk_screen.Display.Controller.Polled.{run_inputs_effect-SameAdvance, poll-skips}
use mathlib.Core.Path.{subst}
use kiosk_screen.Display.Controller.Novelty.{
  is_fresh, pending_novelties-shrinks, SameClaim, novelty_round-claim, resolve_claim-refused,
  asking, novelty_round-asks,
}

-- Between two answers the claim that was asked for stands, and no id that was skipped is asked for
-- again.
abbrev pub IsQuiet : Controller → Controller → Type 0
IsQuiet s t =
    SameClaim s t
    × ((id : String)
        → set_has (novelty_skip_ids s) id ≡ true
        → set_has (novelty_skip_ids t) id ≡ true)

-- The server refuses `n` times, with quiet steps before, between and after its answers.
pub data Refusals : ℕ → Controller → Controller → Type 0 where
  no_refusal : (s t : Controller) → IsQuiet s t → Refusals 0 s t
  one_refusal :
      (now n : ℕ) (s t u : Controller)
      → IsQuiet s t
      → Refusals n (resolve_claim now false t) u
      → Refusals (suc n) s u

abbrev pub HasEnded : Controller → Type 0
HasEnded s = (s.claim ≡ none) × (s.advance_in_progress ≡ false)

ended_free : (n : ℕ) (s t : Controller) → HasEnded s → Refusals n s t → HasEnded t
unfolding resolve_claim
ended_free zero s t (e, f) (no_refusal _ _ ((c, a), _)) = (c ∙ e, a ∙ f)
ended_free (suc n) s u (e, f) (one_refusal now _ _ t _ ((c, a), _) rest) =
    ended_free n (resolve_claim now false t) u (ground arith) rest

length-filter-less :
    (p q : DisplayContentItem → Bool)
    → ((item : DisplayContentItem) → q item ≡ true → p item ≡ true)
    → (queue : List DisplayContentItem) → length (filter q queue) ≤ length (filter p queue)
length-filter-less p q h [] = omega arith
length-filter-less p q h (x ∷ xs) = ground (arith, length-filter-less p q h xs, h x)

-- The novelties that are left once the one that was asked for is refused.
abbrev left : Claim → Controller → List DisplayContentItem
left c s = pending_novelties c.queue (novelty_skip_ids (with_refused c s))

skip_refused :
    (c : Claim) (s : Controller) (id : String)
    → set_has (novelty_skip_ids (with_refused c s)) id
      ≡ (str_eq c.candidate.id id || set_has (novelty_skip_ids s) id)
unfolding novelty_skip_ids
skip_refused c s id = ground (
  arith,
  set_has-append (set_add s.novelty_claim_failures c.candidate.id) s.locally_shown_novelty_ids id,
  set_has-append s.novelty_claim_failures s.locally_shown_novelty_ids id,
  set_has-set_add s.novelty_claim_failures c.candidate.id id,
)

left-quiet : (c : Claim) (s t : Controller) → IsQuiet s t → length (left c t) ≤ length (left c s)
unfolding pending_novelties
left-quiet c s t (_, keeps) =
    let before = is_fresh (novelty_skip_ids (with_refused c s)) in
    let after = is_fresh (novelty_skip_ids (with_refused c t)) in
    omega (
      arith,
      length-filter-less before after
          (λ item h.
            ground (arith, skip_refused c s item.id, skip_refused c t item.id, keeps item.id))
          c.queue,
      length-sort_by display_order (filter before c.queue),
      length-sort_by display_order (filter after c.queue),
    )

Refusals-HasEnded :
    (n : ℕ) (s u : Controller) (c : Claim)
    → s.claim ≡ some c
    → length (left c s) < n
    → Refusals n s u
    → HasEnded u
unfolding novelty_skip_ids
Refusals-HasEnded zero s u c asked enough r = absurd (omega arith)
Refusals-HasEnded (suc n) s u c asked enough (one_refusal now _ _ t _ quiet rest) =
    let refused = with_refused c t in
    let fewer = left-quiet c s t quiet in
    let answered = resolve_claim-refused now t c (quiet.0.0 ∙ asked) in
    elim (List-cases (left c t)) [
      | inl e ↦
          let ended = novelty_round-claim now c.queue c.regular_queue refused e refl in
          ended_free n (resolve_claim now false t) u (subst HasEnded (sym answered) ended) rest
      | inr (x, later, e) ↦
          let next : Claim = record {
            queue = c.queue;
            regular_queue = c.regular_queue;
            candidate = x;
          } in
          let same = answered ∙ novelty_round-asks now c refused x later e in
          let shrinks =
            pending_novelties-shrinks c.queue refused.novelty_claim_failures
              refused.locally_shown_novelty_ids x later e in
          Refusals-HasEnded n (asking c x refused) u next refl
            (omega (arith, shrinks, fewer, ap (λ (l : List DisplayContentItem). length l) e))
            (subst (λ (v : Controller). Refusals n v u) same rest)
    ]

-- An advance that waits for the server is over after as many refusals as there were novelties to
-- ask for, or more: the loop of `_tryAdvanceNovelty` terminates, and a new advance can begin.
-- Before, between and after the answers anything may happen that leaves the claim and takes no id
-- off those that are skipped, such as a poll that still holds the skipped novelties as novelties.
pub refuse_all_ends :
    (n : ℕ) (s t : Controller) (c : Claim) (rest : List DisplayContentItem)
    → s.claim ≡ some c
    → pending_novelties c.queue (novelty_skip_ids s) ≡ c.candidate ∷ rest
    → length (c.candidate ∷ rest) ≤ n
    → Refusals n s t
    → (t.claim ≡ none) × (t.advance_in_progress ≡ false)
unfolding novelty_skip_ids
refuse_all_ends n s t c rest asked pending enough r =
    let shrinks =
      pending_novelties-shrinks c.queue s.novelty_claim_failures s.locally_shown_novelty_ids
        c.candidate rest pending in
    Refusals-HasEnded n s t c asked (omega (arith, shrinks)) r

-- A poll whose queue holds every skipped novelty as one is quiet.
pub poll-IsQuiet :
    (now : ℕ) (inputs : KioskControllerInputs) (s : Controller)
    → ((id : String)
        → set_has (novelty_skip_ids s) id ≡ true
        → still_novelty inputs.content_queue false id ≡ true)
    → IsQuiet s (run_inputs_effect now inputs s)
unfolding prune_novelty_claim_failures
poll-IsQuiet now inputs s held =
    let (claim, busy, _, _, _) = run_inputs_effect-SameAdvance now inputs s in
    ((claim, busy), λ id skipped. poll-skips now inputs s id (held id skipped) ∙ skipped)
