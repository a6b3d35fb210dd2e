-- ===== src/Display/Controller/Shown/Outcome.antt =====
-- What an advance of any kind ends with: an item on screen, or the wait for the server.
use kiosk_screen.Prelude.{
  ℕ, ◌≡◌, refl, ap, ◌∙◌, ◌⊎◌, inl, inr, [], ◌||◌, is_some, true, false, List, ◌∷◌, arith,
  List-cases, if_each,
}
use kiosk_screen.Display.Item.{item_id, DisplayContentItem}
use kiosk_screen.Display.Controller.State.{current_content, Controller, is_nil}
use kiosk_screen.Display.Rotation.{pick_next, pending_novelties}
use kiosk_screen.Display.Cadence.{regular_queue, filler_queue}
use kiosk_screen.Display.Controller.Advance.{
  start, finish, end_burst, with_burst_ended, begin_burst, novelty_round, novelty_skip_ids,
  needs_novelty, advance_content_regular, advance_content_async, advance_content,
}
use kiosk_screen.Display.Rotation.Queue.{pick_next-some}
use kiosk_screen.Display.Controller.Shown.{notify-frame}
use kiosk_screen.Display.Controller.Shown.Present.{
  IsIn, Shows, Shows-item, length_pos, regular_queue-IsIn, full_of_regular, full_of_filler,
  regular_advance-Shows,
}

-- An advance is in progress, and what was on screen stays: either an earlier one that is not over, or
-- one that has asked the server for a novelty.
abbrev pub Waits : Controller → Controller → Type 0
Waits s t =
    (t.advance_in_progress ≡ true)
    × (s.advance_in_progress || is_some t.claim ≡ true)
    × (t.current_content_id ≡ s.current_content_id)

finish-Shows : (s : Controller) → Shows s → Shows (finish s)
unfolding current_content
finish-Shows s h = h

end_burst-Shows :
    (s : Controller)
    → is_nil (regular_queue s.content_queue) ≡ false
    → Shows (end_burst (regular_queue s.content_queue) s)
unfolding end_burst
end_burst-Shows s some_regular =
    let queue = s.content_queue in
    let regular = regular_queue queue in
    let (item, picked, inside) =
      pick_next-some {P = IsIn queue} (regular_queue queue) s.resume_regular_cursor_id
        (length_pos (regular_queue queue) some_regular) (regular_queue-IsIn queue) in
    let ended = with_burst_ended (item_id (pick_next regular s.resume_regular_cursor_id)) s in
    let (shown, _, _, same, _, _) = notify-frame ended in
    Shows-item (end_burst (regular_queue queue) s) item (shown ∙ ap item_id picked) (rw same inside)

-- What an advance can end with: a regular item, or a recurring one outside a burst.
abbrev pub CanShow : Controller → Type 0
CanShow s =
    (is_nil (regular_queue s.content_queue) ≡ false)
    ⊎ ((is_nil (filler_queue s.content_queue) ≡ false) × (s.novelty_burst_active ≡ false))

CanShow-either :
    (s : Controller)
    → CanShow s
    → (is_nil (regular_queue s.content_queue) ≡ false)
      ⊎ (is_nil (filler_queue s.content_queue) ≡ false)
CanShow-either s h = elim h [ inl r ↦ inl r | inr (f, _) ↦ inr f ]

regular_in :
    (s : Controller)
    → s.novelty_burst_active ≡ true
    → CanShow s
    → is_nil (regular_queue s.content_queue) ≡ false
regular_in s on h = elim h [ inl r ↦ r | inr (_, off) ↦ absurd (ground arith) ]

novelty_round-Shows :
    (now : ℕ) (s : Controller)
    → pending_novelties s.content_queue (novelty_skip_ids s) ≡ []
    → CanShow s
    → Shows (novelty_round now s.content_queue (regular_queue s.content_queue) s)
unfolding novelty_round
novelty_round-Shows now s e some_item =
    let regular = regular_queue s.content_queue in
    rw (e, novelty_round)
      (if_each Shows s.novelty_burst_active
        (λ on. finish-Shows (end_burst regular s) (end_burst-Shows s (regular_in s on some_item)))
        (λ off.
          finish-Shows (advance_content_regular now s)
            (regular_advance-Shows now s (CanShow-either s some_item))))

asks :
    (now : ℕ) (s : Controller) (x : DisplayContentItem) (rest : List DisplayContentItem)
    → pending_novelties s.content_queue (novelty_skip_ids s) ≡ x ∷ rest
    → let begun = begin_burst s.content_queue (start s) in
      Waits s (novelty_round now s.content_queue (regular_queue s.content_queue) begun)
unfolding begin_burst novelty_round novelty_skip_ids
asks now s x rest e = ground (arith, e)

-- Where a novelty is pending the round asks for it; where none is, no burst begins.
advance_async-Shows :
    (now : ℕ) (s : Controller)
    → s.advance_in_progress ≡ false
    → CanShow s
    → let begun = begin_burst s.content_queue (start s) in
      let t = novelty_round now s.content_queue (regular_queue s.content_queue) begun in
      Shows t ⊎ Waits s t
unfolding begin_burst novelty_skip_ids
advance_async-Shows now s free some_item =
    let queue = s.content_queue in
    elim (List-cases (pending_novelties queue (novelty_skip_ids s))) [
      | inr (x, rest, e) ↦ inr (asks now s x rest e)
      | inl e ↦ rw e (inl (novelty_round-Shows now (start s) e some_item))
    ]

is_nil_either : (s : Controller) → CanShow s → is_nil s.content_queue ≡ false
is_nil_either s h = elim h [
  | inl r ↦ full_of_regular s.content_queue r
  | inr (f, _) ↦ full_of_filler s.content_queue f
]

-- An advance never takes the last content off the screen where there is a regular item to show, or a
-- recurring one that is active while no burst of novelties is on: either an item of the queue is on
-- screen afterwards, or what was on screen stays while an advance is in progress, an earlier one
-- that is not over or this one, which has asked the server for a novelty. That is so in every mode,
-- paused or not.
pub advance-Shows :
    (now : ℕ) (s : Controller)
    → CanShow s
    → Shows (advance_content now s) ⊎ Waits s (advance_content now s)
unfolding advance_content advance_content_async
advance-Shows now s some_item =
    if_each (λ (t : Controller). Shows t ⊎ Waits s t) (needs_novelty s)
      (λ wanted.
        if_each (λ (t : Controller). Shows t ⊎ Waits s t) s.advance_in_progress
          (λ busy. inr (busy, ground (arith, busy), refl))
          (λ free. rw (is_nil_either s some_item) (advance_async-Shows now s free some_item)))
      (λ plain. inl (regular_advance-Shows now s (CanShow-either s some_item)))
