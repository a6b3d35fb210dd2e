-- ===== src/Display/Controller/Shown/Present.antt =====
-- A regular advance over a queue with items to rotate shows one of its items.
use kiosk_screen.Prelude.{
  ℕ, ◌<◌, String, ◌≡◌, refl, sym, ap, ◌∙◌, ◌⊎◌, inl, inr, Bool, true, false, not, ◌&&◌, none, some,
  List, [], ◌∷◌, arith, eq_refl, Bool-cases, Option-cases, or_else, length, head?, filter, any,
  find, All, All-of_filter, sort_by-All, All-mono, JsMap,
}
use kiosk_screen.Display.Item.{item_id, is_true, has_id, DisplayContentItem}
use kiosk_screen.Display.Controller.State.{current_content, Controller, is_nil}
use kiosk_screen.Display.Rotation.{display_order}
use kiosk_screen.Display.Cadence.{
  regular_queue, filler_queue, due_items, is_due, is_active_recurring, has_recurring_cadence,
}
use kiosk_screen.Display.Controller.Advance.{count_transition, next_due, advance_content_regular}
use kiosk_screen.Display.Rotation.Queue.{pick_next-some}
use kiosk_screen.Display.Controller.Shown.{
  due_interrupts, regular_continues, filler_continues, count-frame,
}

-- An item with the id is in the queue.
abbrev pub IsIn : List DisplayContentItem → DisplayContentItem → Type 0
IsIn queue item = any (has_id item.id) queue ≡ true

IsIn-cons :
    (x item : DisplayContentItem) (queue : List DisplayContentItem)
    → IsIn queue item
    → IsIn (x ∷ queue) item
IsIn-cons x item queue h = ground arith

All-IsIn : (queue : List DisplayContentItem) → All (IsIn queue) queue
All-IsIn [] = tt
All-IsIn (x ∷ xs) =
    (rw (eq_refl x.id), All-mono (IsIn xs) (IsIn (x ∷ xs)) xs (λ y. IsIn-cons x y xs) (All-IsIn xs))

pub regular_queue-IsIn : (queue : List DisplayContentItem) → All (IsIn queue) (regular_queue queue)
unfolding regular_queue
regular_queue-IsIn queue =
    let p : DisplayContentItem → Bool =
      λ item. not (has_recurring_cadence item) && not (is_true item.is_novelty) in
    sort_by-All display_order (IsIn queue) (filter p queue)
      (All-of_filter (IsIn queue) p queue (All-IsIn queue))

filler_queue-IsIn : (queue : List DisplayContentItem) → All (IsIn queue) (filler_queue queue)
unfolding filler_queue
filler_queue-IsIn queue =
    sort_by-All display_order (IsIn queue) (filter is_active_recurring queue)
      (All-of_filter (IsIn queue) is_active_recurring queue (All-IsIn queue))

due_items-IsIn :
    (queue : List DisplayContentItem) (counters : JsMap ℕ)
    → All (IsIn queue) (due_items queue counters)
unfolding due_items
due_items-IsIn queue counters =
    All-of_filter (IsIn queue) (is_due counters) (filler_queue queue) (filler_queue-IsIn queue)

find_of_any :
    (id : String) (queue : List DisplayContentItem)
    → any (has_id id) queue ≡ true
    → (item : DisplayContentItem) × (find (has_id id) queue ≡ some item)
find_of_any id [] h = absurd (ground arith)
find_of_any id (x ∷ xs) h = elim (Bool-cases (has_id id x)) [
  | inl e ↦ (x, rw e)
  | inr e ↦ let (item, f) = find_of_any id xs (ground arith) in (item, rw e f)
]

-- Something of the queue is on screen.
abbrev pub Shows : Controller → Type 0
Shows s = (item : DisplayContentItem) × (current_content s ≡ some item)

pub Shows-item :
    (s : Controller) (item : DisplayContentItem)
    → s.current_content_id ≡ some item.id
    → IsIn s.content_queue item
    → Shows s
unfolding current_content
Shows-item s item e h =
    let (found, f) = find_of_any item.id s.content_queue h in (found, rw (e, current_content) f)

head-All :
    (P : DisplayContentItem → Type 0) (xs : List DisplayContentItem) (x : DisplayContentItem)
    → All P xs
    → head? xs ≡ some x
    → P x
head-All P [] x h e = absurd (ground arith)
head-All P (y ∷ xs) x h e = ground arith

next_due-IsIn :
    (s : Controller) (item : DisplayContentItem)
    → next_due s ≡ some item
    → IsIn s.content_queue item
unfolding next_due
next_due-IsIn s item e =
    head-All (IsIn s.content_queue) (due_items s.content_queue s.recurring_counters) item
      (due_items-IsIn s.content_queue s.recurring_counters) (ground arith)

pub length_pos : (xs : List DisplayContentItem) → is_nil xs ≡ false → 0 < length xs
length_pos [] h = absurd (ground arith)
length_pos (x ∷ xs) h = omega arith

pub full_of_regular :
    (queue : List DisplayContentItem) → is_nil (regular_queue queue) ≡ false → is_nil queue ≡ false
unfolding regular_queue
full_of_regular [] h = h
full_of_regular (x ∷ xs) h = refl

pub full_of_filler :
    (queue : List DisplayContentItem) → is_nil (filler_queue queue) ≡ false → is_nil queue ≡ false
unfolding filler_queue
full_of_filler [] h = h
full_of_filler (x ∷ xs) h = refl

due-Shows :
    (now : ℕ) (s : Controller) (item : DisplayContentItem)
    → is_nil s.content_queue ≡ false
    → next_due (count_transition s) ≡ some item
    → Shows (advance_content_regular now s)
due-Shows now s item full due =
    let (shown, _, _, same) = due_interrupts now s item full due in
    let inside : IsIn s.content_queue item =
      rw (sym (count-frame s).2) (next_due-IsIn (count_transition s) item due) in
    Shows-item (advance_content_regular now s) item shown (rw same.0 inside)

regular-Shows :
    (now : ℕ) (s : Controller)
    → is_nil (regular_queue s.content_queue) ≡ false
    → next_due (count_transition s) ≡ none
    → Shows (advance_content_regular now s)
regular-Shows now s some_regular due =
    let queue = s.content_queue in
    let (shown, _, _, same) =
      regular_continues now s some_regular (full_of_regular queue some_regular) due in
    let (item, picked, inside) =
      pick_next-some {P = IsIn queue} (regular_queue queue) s.regular_cursor_id
        (length_pos (regular_queue queue) some_regular) (regular_queue-IsIn queue) in
    Shows-item (advance_content_regular now s) item (shown ∙ ap item_id picked) (rw same.0 inside)

filler-Shows :
    (now : ℕ) (s : Controller)
    → is_nil (regular_queue s.content_queue) ≡ true
    → is_nil (filler_queue s.content_queue) ≡ false
    → next_due (count_transition s) ≡ none
    → Shows (advance_content_regular now s)
filler-Shows now s no_regular some_filler due =
    let queue = s.content_queue in
    let (shown, same) =
      filler_continues now s no_regular some_filler (full_of_filler queue some_filler) due in
    let (item, picked, inside) =
      pick_next-some {P = IsIn queue} (filler_queue queue)
        (or_else s.filler_cursor_id s.current_content_id)
        (length_pos (filler_queue queue) some_filler) (filler_queue-IsIn queue) in
    Shows-item (advance_content_regular now s) item (shown ∙ ap item_id picked) (rw same.0 inside)

-- A regular advance shows an item where there is one to rotate.
pub regular_advance-Shows :
    (now : ℕ) (s : Controller)
    → (is_nil (regular_queue s.content_queue) ≡ false)
      ⊎ (is_nil (filler_queue s.content_queue) ≡ false)
    → Shows (advance_content_regular now s)
regular_advance-Shows now s some_item = elim (Option-cases (next_due (count_transition s))) [
  | inr (item, due) ↦ elim some_item [
    | inl h ↦ due-Shows now s item (full_of_regular s.content_queue h) due
    | inr h ↦ due-Shows now s item (full_of_filler s.content_queue h) due
  ]
  | inl due ↦ elim (Bool-cases (is_nil (regular_queue s.content_queue))) [
    | inr h ↦ regular-Shows now s h due
    | inl no_regular ↦ elim some_item [
      | inl h ↦ regular-Shows now s h due
      | inr h ↦ filler-Shows now s no_regular h due
    ]
  ]
]
