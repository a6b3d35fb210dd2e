-- ===== src/Display/Tests.antt =====
-- Runs of the rotation and the cadence on small queues.
use kiosk_screen.Prelude.{◌≡◌, refl, some, ne_of_str_eq, get_elem?}
use kiosk_screen.Display.Samples.{third_item, regular_items}
use kiosk_screen.Display.Item.{item_id}
use kiosk_screen.Display.Rotation.{pick_next, pick_previous}
use kiosk_screen.Display.Rotation.Cycle.{HasDistinctIds, steps, steps_at, pick_previous-pick_next}

regular_items-HasDistinctIds : HasDistinctIds regular_items
regular_items-HasDistinctIds = (
  refl,
  (ne_of_str_eq "b" "a" refl, (ne_of_str_eq "c" "a" refl, tt)),
  (refl, (ne_of_str_eq "c" "b" refl, tt), (refl, tt, tt)),
)

steps_at_example : steps regular_items 2 (some third_item) ≡ get_elem? regular_items 1
steps_at_example = steps_at regular_items 2 2 third_item regular_items-HasDistinctIds refl

pick_previous-pick_next_example :
    pick_previous regular_items (item_id (pick_next regular_items (some "c"))) ≡ some third_item
pick_previous-pick_next_example =
    pick_previous-pick_next regular_items 2 third_item regular_items-HasDistinctIds refl
