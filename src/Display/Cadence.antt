-- ===== src/Display/Cadence.antt =====
-- frontend/src/app/display/recurring-cadence.service.ts
pub mod Queues
pub mod Counters
pub mod Changes
use kiosk_screen.Prelude.{
  ℕ, ◌+◌, String, Bool, true, false, not, ◌&&◌, Option, none, some, List, [], ◌∷◌, leb, ◌==◌,
  if◌then◌else◌, or_default, filter, any, sort_by, JsMap, map_get, map_set, set_has,
}
use kiosk_screen.Display.Item.{DisplayContentItem, is_true}
use kiosk_screen.Display.Rotation.{display_order}

-- `typeof n === 'number' && n >= 1`
abbrev pub has_recurring_cadence : DisplayContentItem → Bool
has_recurring_cadence item = elim item.recurring_every_x_iterations [
  | none ↦ false
  | some n ↦ leb 1 n
]

abbrev pub is_active_recurring : DisplayContentItem → Bool
is_active_recurring item = item.is_active && has_recurring_cadence item

-- `item.recurringEveryXIterations!`
abbrev pub cadence_of : DisplayContentItem → ℕ
cadence_of item = or_default item.recurring_every_x_iterations 0

unfoldable pub regular_queue : List DisplayContentItem → List DisplayContentItem
regular_queue items =
    sort_by display_order
      (filter (λ item. not (has_recurring_cadence item) && not (is_true item.is_novelty)) items)

unfoldable pub filler_queue : List DisplayContentItem → List DisplayContentItem
filler_queue items = sort_by display_order (filter is_active_recurring items)

unfoldable pub has_recurring_items : List DisplayContentItem → Bool
has_recurring_items items = any is_active_recurring items

pub snapshot_from : JsMap ℕ → List DisplayContentItem → JsMap ℕ
snapshot_from snapshot [] = snapshot
snapshot_from snapshot (item ∷ items) =
    snapshot_from (map_set snapshot item.id (cadence_of item)) items

unfoldable pub build_cadence_snapshot : List DisplayContentItem → JsMap ℕ
unfolding snapshot_from filler_queue
build_cadence_snapshot items = snapshot_from [] (filler_queue items)

-- `prev === undefined || prev !== n`
abbrev pub is_changed : Option ℕ → ℕ → Bool
is_changed none n = true
is_changed (some prev) n = not (prev == n)

pub changed_ids : JsMap ℕ → JsMap ℕ → List String
changed_ids previous [] = []
changed_ids previous ((id, n) ∷ current) =
    let rest = changed_ids previous current in
    if is_changed (map_get previous id) n then id ∷ rest else rest

unfoldable pub cadence_changes : JsMap ℕ → List DisplayContentItem → List String
unfolding changed_ids build_cadence_snapshot
cadence_changes previous items = changed_ids previous (build_cadence_snapshot items)

-- `counters.get(id) ?? 0`
abbrev pub counter_of : JsMap ℕ → String → ℕ
counter_of counters id = or_default (map_get counters id) 0

unfoldable pub increment_counters : JsMap ℕ → List DisplayContentItem → JsMap ℕ
increment_counters counters [] = counters
increment_counters counters (item ∷ items) =
    increment_counters (map_set counters item.id (counter_of counters item.id + 1)) items

abbrev pub is_due : JsMap ℕ → DisplayContentItem → Bool
is_due counters item = leb (cadence_of item) (counter_of counters item.id)

unfoldable pub due_items : List DisplayContentItem → JsMap ℕ → List DisplayContentItem
unfolding filler_queue
due_items items counters = filter (is_due counters) (filler_queue items)

unfoldable pub reset_counter : JsMap ℕ → String → JsMap ℕ
reset_counter counters content_id = map_set counters content_id 0

unfoldable pub clear_counters : JsMap ℕ
clear_counters = []

unfoldable pub prune_counters : JsMap ℕ → List String → JsMap ℕ
prune_counters [] ids = []
prune_counters ((id, value) ∷ counters) ids =
    let rest = prune_counters counters ids in if set_has ids id then (id, value) ∷ rest else rest
