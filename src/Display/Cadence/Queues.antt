-- ===== src/Display/Cadence/Queues.antt =====
-- Which items the regular and the filler queue hold.
use kiosk_screen.Prelude.{
  ℕ, ◌≤◌, ◌≡◌, refl, sym, ◌∙◌, inl, inr, Bool, true, false, not, ◌&&◌, List, [], ◌∷◌, arith,
  Bool-cases, is_some, length, head?, filter, All, any-filter, All-of_filter, IsSorted, sort_by-All,
  sort_by-IsSorted, length-sort_by, JsMap,
}
use kiosk_screen.Display.Item.{DisplayContentItem, is_true}
use kiosk_screen.Display.Rotation.{display_order}
use kiosk_screen.Display.Cadence.{
  has_recurring_cadence, is_active_recurring, cadence_of, regular_queue, filler_queue,
  has_recurring_items, is_due, due_items,
}

abbrev pub IsRegular : DisplayContentItem → Type 0
IsRegular item = (has_recurring_cadence item ≡ false) × (is_true item.is_novelty ≡ false)

abbrev pub IsFiller : DisplayContentItem → Type 0
IsFiller item = (item.is_active ≡ true) × (1 ≤ cadence_of item)

filter-IsRegular :
    (items : List DisplayContentItem)
    → All IsRegular
        (filter (λ item. not (has_recurring_cadence item) && not (is_true item.is_novelty)) items)
filter-IsRegular [] = tt
filter-IsRegular (x ∷ xs) = ground (arith, filter-IsRegular xs)

filter-IsFiller :
    (items : List DisplayContentItem) → All IsFiller (filter is_active_recurring items)
filter-IsFiller [] = tt
filter-IsFiller (x ∷ xs) = ground (arith, filter-IsFiller xs)

-- The regular queue holds, in display order, neither recurring nor novelty items.
pub regular_queue_lem :
    (items : List DisplayContentItem)
    → All IsRegular (regular_queue items) × IsSorted display_order (regular_queue items)
unfolding regular_queue
regular_queue_lem items =
    let kept : List DisplayContentItem =
      filter (λ item. not (has_recurring_cadence item) && not (is_true item.is_novelty)) items in
    (
      sort_by-All display_order IsRegular kept (filter-IsRegular items),
      sort_by-IsSorted display_order kept,
    )

pub filler_queue_lem :
    (items : List DisplayContentItem)
    → All IsFiller (filler_queue items) × IsSorted display_order (filler_queue items)
unfolding filler_queue
filler_queue_lem items = (
  sort_by-All display_order IsFiller _ (filter-IsFiller items),
  sort_by-IsSorted display_order (filter is_active_recurring items),
)

insert_ne_nil :
    {A : Type 0} (xs ys : List A) → length xs ≡ length ys → is_some (head? xs) ≡ is_some (head? ys)
insert_ne_nil [] [] h = refl
insert_ne_nil [] (y ∷ ys) h = absurd (omega arith)
insert_ne_nil (x ∷ xs) [] h = absurd (omega arith)
insert_ne_nil (x ∷ xs) (y ∷ ys) h = refl

-- `hasRecurringItems` answers whether the filler queue has an item.
pub has_recurring_items-filler_queue :
    (items : List DisplayContentItem)
    → has_recurring_items items ≡ is_some (head? (filler_queue items))
unfolding has_recurring_items filler_queue
has_recurring_items-filler_queue items =
    any-filter is_active_recurring items
    ∙ sym (insert_ne_nil _ _ (length-sort_by display_order (filter is_active_recurring items)))

filter-IsSorted :
    (p : DisplayContentItem → Bool) (xs : List DisplayContentItem)
    → IsSorted display_order xs
    → IsSorted display_order (filter p xs)
filter-IsSorted p [] h = tt
filter-IsSorted p (x ∷ xs) h = ground (
  arith,
  filter-IsSorted p xs h.1,
  All-of_filter (λ y. display_order x ≤ display_order y) p xs h.0,
)

abbrev pub IsDue : JsMap ℕ → DisplayContentItem → Type 0
IsDue counters item = IsFiller item × (is_due counters item ≡ true)

filter-IsDue :
    (counters : JsMap ℕ) (xs : List DisplayContentItem)
    → All IsFiller xs
    → All (IsDue counters) (filter (is_due counters) xs)
filter-IsDue counters [] h = tt
filter-IsDue counters (x ∷ xs) h = elim (Bool-cases (is_due counters x)) [
  | inl e ↦ rw e ((h.0, e), filter-IsDue counters xs h.1)
  | inr e ↦ rw e (filter-IsDue counters xs h.1)
]

-- The due items are active recurring items whose counter has reached their cadence, in display
-- order.
pub due_items_lem :
    (items : List DisplayContentItem) (counters : JsMap ℕ)
    → All (IsDue counters) (due_items items counters)
      × IsSorted display_order (due_items items counters)
unfolding due_items
due_items_lem items counters =
    let (fill, sorted) = filler_queue_lem items in
    (filter-IsDue counters _ fill, filter-IsSorted (is_due counters) _ sorted)
