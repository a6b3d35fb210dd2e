-- ===== src/Display/Controller/Shown/Cadence.antt =====
-- The cadence of a recurring item, over the transitions from one showing to the next.
use kiosk_screen.Prelude.{
  ℕ, zero, suc, ◌+◌, ◌<◌, String, ◌≡◌, refl, ap, ◌∙◌, true, false, Option, none, some, List, [],
  ◌∷◌, arith, eq_refl, leb, if◌then◌else◌, JsMap,
}
use kiosk_screen.Display.Item.{item_id, DisplayContentItem, is_loop}
use kiosk_screen.Display.Controller.State.{Controller, is_nil}
use kiosk_screen.Display.Rotation.{pick_next}
use kiosk_screen.Display.Cadence.{
  regular_queue, filler_queue, increment_counters, due_items, counter_of, cadence_of,
}
use kiosk_screen.Display.Controller.Advance.{count_transition, next_due, advance_content_regular}
use kiosk_screen.Display.Cadence.Counters.{counter_of-increment_counters, counter_of-reset_counter}
use kiosk_screen.Display.Controller.Shown.{
  due_interrupts, regular_continues, count-frame, SameSetting,
}

-- Loop mode without a pause, with one recurring item and at least one regular item.
pub record IsRotating (r : DisplayContentItem) (s : Controller) : Type 0 where
  pub loops : is_loop s.content_mode ≡ true
  pub runs : s.is_paused ≡ false
  pub full : is_nil s.content_queue ≡ false
  pub fillers : filler_queue s.content_queue ≡ r ∷ []
  pub regulars : is_nil (regular_queue s.content_queue) ≡ false

SameSetting-IsRotating :
    (r : DisplayContentItem) (s t : Controller) → SameSetting s t → IsRotating r s → IsRotating r t
SameSetting-IsRotating r s t (q, m, p) h = record {
  loops = rw m h.loops;
  runs = rw p h.runs;
  full = rw q h.full;
  fillers = rw q h.fillers;
  regulars = rw q h.regulars;
}

counted :
    (r : DisplayContentItem) (s : Controller)
    → IsRotating r s
    → (count_transition s).recurring_counters ≡ increment_counters s.recurring_counters (r ∷ [])
unfolding count_transition
counted r s h = rw (h.loops, h.runs, h.fillers)

counter_up :
    (r : DisplayContentItem) (s : Controller)
    → IsRotating r s
    → counter_of (count_transition s).recurring_counters r.id
      ≡ counter_of s.recurring_counters r.id + 1
counter_up r s h =
    ap (λ (m : JsMap ℕ). counter_of m r.id) (counted r s h)
    ∙ counter_of-increment_counters s.recurring_counters (r ∷ []) r.id
    ∙ rw (eq_refl r.id) (omega arith)

due_of_one :
    (r : DisplayContentItem) (s : Controller)
    → IsRotating r s
    → next_due s
      ≡ (if leb (cadence_of r) (counter_of s.recurring_counters r.id) then some r else none)
unfolding next_due due_items
due_of_one r s h = rw (h.loops, h.runs, h.fillers) (ground arith)

due_by_counter :
    (r : DisplayContentItem) (s : Controller)
    → IsRotating r s
    → next_due (count_transition s)
      ≡ (if leb (cadence_of r) (counter_of s.recurring_counters r.id + 1) then some r else none)
due_by_counter r s h =
    let same = count-frame s in
    due_of_one r (count_transition s)
      (SameSetting-IsRotating r s (count_transition s) (same.2, same.3, same.4) h)
    ∙ ap (λ (n : ℕ). if leb (cadence_of r) n then some r else none) (counter_up r s h)

-- `n` transitions in a row.
abbrev pub advances : ℕ → ℕ → Controller → Controller
advances now zero s = s
advances now (suc n) s = advance_content_regular now (advances now n s)

-- The regular cursor after `n` steps of the regular rotation.
abbrev pub cursor_after : List DisplayContentItem → ℕ → Option String → Option String
cursor_after queue zero cursor = cursor
cursor_after queue (suc n) cursor = item_id (pick_next queue (cursor_after queue n cursor))

-- Where the rotation stands `n` transitions after the recurring item was shown.
record Waiting (r : DisplayContentItem) (s : Controller) (n : ℕ) (t : Controller) : Type 0 where
  rotating : IsRotating r t
  queue : t.content_queue ≡ s.content_queue
  counter : counter_of t.recurring_counters r.id ≡ n
  cursor : t.regular_cursor_id ≡ cursor_after (regular_queue s.content_queue) n s.regular_cursor_id

step-Waiting :
    (now n : ℕ) (r : DisplayContentItem) (s t : Controller)
    → suc n < cadence_of r
    → Waiting r s n t
    → Waiting r s (suc n) (advance_content_regular now t)
      × ((advance_content_regular now t).current_content_id
          ≡ cursor_after (regular_queue s.content_queue) (suc n) s.regular_cursor_id)
step-Waiting now n r s t early w =
    let waits : next_due (count_transition t) ≡ none =
      due_by_counter r t w.rotating ∙ ground (arith, w.counter) in
    let (shown, cursor, counters, same) =
      regular_continues now t w.rotating.regulars w.rotating.full waits in
    let next : item_id (pick_next (regular_queue t.content_queue) t.regular_cursor_id)
        ≡ cursor_after (regular_queue s.content_queue) (suc n) s.regular_cursor_id =
      rw (w.queue, w.cursor) in
    (
      record {
        rotating = SameSetting-IsRotating r t (advance_content_regular now t) same w.rotating;
        queue = same.0 ∙ w.queue;
        counter =
            ap (λ (m : JsMap ℕ). counter_of m r.id) counters
            ∙ counter_up r t w.rotating
            ∙ omega (arith, w.counter);
        cursor = cursor ∙ next;
      },
      shown ∙ next,
    )

advances-Waiting :
    (now n : ℕ) (r : DisplayContentItem) (s : Controller)
    → IsRotating r s
    → counter_of s.recurring_counters r.id ≡ 0
    → n < cadence_of r
    → Waiting r s n (advances now n s)
advances-Waiting now zero r s h zeroed early = record {
  rotating = h;
  queue = refl;
  counter = zeroed;
  cursor = refl;
}
advances-Waiting now (suc n) r s h zeroed early =
    (step-Waiting now n r s (advances now n s) early
      (advances-Waiting now n r s h zeroed (omega arith))).0

-- The cadence is exact. In loop mode without a pause, with regular items and a single active
-- recurring item, of cadence k + 1, whose counter stands at 0, the next k transitions show the
-- regular items in rotation order, and the one after them shows the recurring item, sets its
-- counter to 0 and leaves the regular cursor where the k transitions had brought it.
pub cadence_exact :
    (now k : ℕ) (r : DisplayContentItem) (s : Controller)
    → IsRotating r s
    → counter_of s.recurring_counters r.id ≡ 0
    → cadence_of r ≡ suc k
    → ((n : ℕ)
        → n < k
        → (advances now (suc n) s).current_content_id
          ≡ cursor_after (regular_queue s.content_queue) (suc n) s.regular_cursor_id)
      × ((advances now (suc k) s).current_content_id ≡ some r.id)
      × (counter_of (advances now (suc k) s).recurring_counters r.id ≡ 0)
      × ((advances now (suc k) s).regular_cursor_id
          ≡ cursor_after (regular_queue s.content_queue) k s.regular_cursor_id)
cadence_exact now k r s h zeroed cadence =
    let w = advances-Waiting now k r s h zeroed (omega arith) in
    let t = advances now k s in
    let due : next_due (count_transition t) ≡ some r =
      due_by_counter r t w.rotating ∙ ground (arith, w.counter) in
    let (shown, cursor, counters, same) = due_interrupts now t r w.rotating.full due in
    (
      λ n early.
          (step-Waiting now n r s (advances now n s) (omega arith)
            (advances-Waiting now n r s h zeroed (omega arith))).1,
      shown,
      ap (λ (m : JsMap ℕ). counter_of m r.id) counters
          ∙ counter_of-reset_counter (count_transition t).recurring_counters r.id r.id
          ∙ rw (eq_refl r.id),
      cursor ∙ w.cursor,
    )
