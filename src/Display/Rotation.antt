-- ===== src/Display/Rotation.antt =====
-- frontend/src/app/display/display-rotation.service.ts
pub mod Queue
pub mod Cycle
use kiosk_screen.Prelude.{
  ℕ, zero, suc, ◌+◌, ◌-◌, ◌%◌, String, not, ◌&&◌, Option, none, some, List, [], ◌∷◌, if◌then◌else◌,
  or_default, or_else, non_empty, length, get_elem?, filter, find_index, sort_by, JsSet, set_has,
}
use kiosk_screen.Display.Item.{DisplayContentItem, has_id, is_true}

abbrev pub display_order : DisplayContentItem → ℕ
display_order item = item.display_order

-- The novelty items that are not to be skipped, in display order.
unfoldable pub pending_novelties : List DisplayContentItem → JsSet → List DisplayContentItem
pending_novelties items skip_ids =
    sort_by display_order
      (filter (λ item. is_true item.is_novelty && not (set_has skip_ids item.id)) items)

-- `currentId ? queue.findIndex(...) : otherwise`
abbrev pub index_of : List DisplayContentItem → Option String → Option ℕ → Option ℕ
index_of queue none otherwise = otherwise
index_of queue (some k) otherwise = if non_empty k then find_index (has_id k) queue else otherwise

abbrev pub next_index : ℕ → Option ℕ → ℕ
next_index n none = 0
next_index n (some i) = (i + 1) % n

abbrev pub previous_index : ℕ → Option ℕ → ℕ
previous_index n none = n - 1
previous_index n (some zero) = n - 1
previous_index n (some (suc i)) = i

unfoldable pub pick_next : List DisplayContentItem → Option String → Option DisplayContentItem
pick_next [] current_id = none
pick_next (x ∷ xs) current_id =
    get_elem? (x ∷ xs) (next_index (length (x ∷ xs)) (index_of (x ∷ xs) current_id none))

unfoldable pub pick_previous : List DisplayContentItem → Option String → Option DisplayContentItem
pick_previous [] current_id = none
pick_previous (x ∷ xs) current_id =
    get_elem? (x ∷ xs) (previous_index (length (x ∷ xs)) (index_of (x ∷ xs) current_id (some 0)))

-- `ordered` and `current` are generic in the item, by its display order.
module _ {ℓ} {T : Type ℓ} (order : T → ℕ) where
  unfoldable pub ordered : List T → List T
  ordered items = sort_by order items

  unfoldable pub current : List T → ℕ → Option T
  unfolding ordered
  current items index = elim (ordered items) [
    | [] ↦ none
    | x ∷ xs ↦ let n = length (x ∷ xs) in get_elem? (x ∷ xs) ((index % n + n) % n)
  ]

unfoldable pub duration : Option DisplayContentItem → ℕ → ℕ
duration none default_duration_seconds = default_duration_seconds
duration (some item) default_duration_seconds =
    or_default (or_else item.effective_duration_seconds item.duration_seconds)
      default_duration_seconds
