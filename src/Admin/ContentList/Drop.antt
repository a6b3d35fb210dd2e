-- ===== src/Admin/ContentList/Drop.antt =====
-- Moving rows: `moveItem` and `onDrop` of the page of the contents. `moveItemInArray` is that of
-- Angular's CDK.
use kiosk_screen.Prelude.{
  ℕ, zero, suc, ◌+◌, ◌<◌, String, ◌≡◌, refl, ap, Bool, true, false, not, ◌&&◌, Option, none, some,
  List, [], ◌∷◌, ◌++◌, arith, eq_iff, ltb, if◌then◌else◌, str_eq, if_both, or_default, length,
  get_elem?, take, drop, filter, find_index, take-append-drop, JsSet, set_has, count-append,
  IsDistinct, SameIds, bag_of, SameIds-IsDistinct, All-set_has, count-split, count,
}
use kiosk_screen.Admin.Catalog.{ids_of, IsNumbered}
use kiosk_screen.Admin.Facade.{reorder}
use kiosk_screen.Admin.Content.{ContentItem, content_listed}
use kiosk_screen.Admin.Content.Outcomes.{reorder_rearranges}
use kiosk_screen.Admin.ContentList.{ContentList, filtered_items, reorder_enabled, clear_selection}

pub data MoveDirection : Type 0 where
  up down : MoveDirection

-- `index + direction`; `none` is -1.
abbrev pub moved_index : MoveDirection → ℕ → Option ℕ
moved_index up zero = none
moved_index up (suc i) = some i
moved_index down i = some (i + 1)

abbrev pub row_index : ContentItem → ContentList → Option ℕ
row_index item p = find_index (λ (row : ContentItem). str_eq row.id item.id) (filtered_items p)

-- Where the row of the item goes, if it can move.
abbrev pub move_target : ContentItem → MoveDirection → ContentList → Option ℕ
move_target item direction p = elim (row_index item p) [
  | none ↦ none
  | some index ↦ moved_index direction index
]

unfoldable pub can_move : ContentItem → MoveDirection → ContentList → Bool
can_move item direction p = reorder_enabled p && (elim (move_target item direction p) [
  | none ↦ false
  | some target ↦ ltb target (length (filtered_items p))
])

-- What the documentation says of `moveItemInArray`: it moves one item of an array.
pub record MovesOne (move : ℕ → ℕ → List String → List String) : Type 0 where
  pub same : (i j : ℕ) (ids : List String) → SameIds (move i j ids) ids
  pub others :
      (i j : ℕ) (ids : List String) (k : String) (p : String → Bool)
      → get_elem? ids i ≡ some k
      → p k ≡ false
      → filter p (move i j ids) ≡ filter p ids

module _ (move_item_in_array : ℕ → ℕ → List String → List String) where
  abbrev pub reorder_rows : ℕ → ℕ → ContentList → ContentList
  reorder_rows i j p = record p {
    facade = reorder (move_item_in_array i j (ids_of (filtered_items p))) p.facade;
  }

  abbrev pub move_between : Option ℕ → Option ℕ → ContentList → ContentList
  move_between (some i) (some j) p = reorder_rows i j p
  move_between _ _ p = p

  unfoldable pub move_item : ContentItem → MoveDirection → ContentList → ContentList
  unfolding can_move
  move_item item direction p =
      if can_move item direction p
      then move_between (row_index item p) (move_target item direction p) p
      else p

  -- `selected.has(movedId)`
  abbrev pub moved_selected : JsSet → Option String → Bool
  moved_selected selected none = false
  moved_selected selected (some id) = set_has selected id

  -- `withoutBlock.indexOf(movedId)`
  abbrev pub index_of : Option String → List String → Option ℕ
  index_of none ids = none
  index_of (some id) ids = find_index (λ j. str_eq j id) ids

  abbrev pub splice : ℕ → List String → List String → List String
  splice n block ids = take n ids ++ block ++ drop n ids

  abbrev pub with_block : JsSet → Option String → List String → List String
  with_block selected moved ids =
      let block = filter (set_has selected) ids in
      let without_block = filter (λ j. not (set_has selected j)) ids in
      splice (or_default (index_of moved without_block) (length without_block)) block without_block

  unfoldable pub drop_order : ℕ → ℕ → JsSet → List String → List String
  drop_order previous current selected rows =
      let ids = move_item_in_array previous current rows in
      let moved = get_elem? rows previous in
      if moved_selected selected moved && ltb 1 (length selected)
      then with_block selected moved ids
      else ids

  unfoldable pub on_drop : ℕ → ℕ → ContentList → ContentList
  unfolding drop_order clear_selection
  on_drop previous current p =
      if reorder_enabled p
      then record (clear_selection p) {
        facade =
            reorder (drop_order previous current p.selection (ids_of (filtered_items p))) p.facade;
      }
      else p

  unselected_elsewhere :
      (selected : JsSet) (id : String) (ids : List String)
      → set_has selected id ≡ true
      → find_index (λ j. str_eq j id) (filter (λ j. not (set_has selected j)) ids) ≡ none
  unselected_elsewhere selected id [] h = refl
  unselected_elsewhere selected id (k ∷ ids) h =
      ground (arith, eq_iff k id, unselected_elsewhere selected id ids h)

  append_nil : (xs : List String) → xs ++ [] ≡ xs
  append_nil [] = refl
  append_nil (x ∷ xs) = ap (◌∷◌ x) (append_nil xs)

  splice_end : (block ids : List String) → splice (length ids) block ids ≡ ids ++ block
  splice_end block [] = append_nil block
  splice_end block (k ∷ ids) = ap (◌∷◌ k) (splice_end block ids)

  take-drop-count :
      (k : String) (n : ℕ) (ids : List String)
      → count k (take n ids) + count k (drop n ids) ≡ count k ids
  take-drop-count k n ids =
      omega (arith, count-append k (take n ids) (drop n ids), ap (count k) (take-append-drop n ids))

  count-splice :
      (k : String) (n : ℕ) (block ids : List String)
      → count k (splice n block ids) ≡ count k ids + count k block
  count-splice k n block ids =
      rw
        (
          splice,
          count-append k (take n ids ++ block) (drop n ids),
          count-append k (take n ids) block,
        )
        (omega (arith, take-drop-count k n ids))

  module _ (moves : MovesOne move_item_in_array) where
    -- Dropping a row that is selected, together with others, puts the selected rows last, wherever
    -- the row was dropped: the rows that are not selected keep their order and come first.
    pub drop_goes_last :
        (previous current : ℕ) (selected : JsSet) (rows : List String) (id : String)
        → get_elem? rows previous ≡ some id
        → set_has selected id ≡ true
        → 1 < length selected
        → drop_order previous current selected rows
          ≡ filter (λ j. not (set_has selected j)) rows
            ++ filter (set_has selected) (move_item_in_array previous current rows)
    unfolding drop_order
    drop_goes_last previous current selected rows id at chosen many =
        let ids = move_item_in_array previous current rows in
        let several : ltb 1 (length selected) ≡ true = ground (arith, many) in
        rw
          (
            drop_order,
            at,
            chosen,
            several,
            unselected_elsewhere selected id ids chosen,
            splice_end (filter (set_has selected) ids) (filter (λ j. not (set_has selected j)) ids),
            moves.others previous current rows id (λ j. not (set_has selected j)) at
                (ground (arith, chosen)),
          )
          refl

    with_block-SameIds :
        (selected : JsSet) (moved : Option String) (ids : List String)
        → SameIds (with_block selected moved ids) ids
    with_block-SameIds selected moved ids k =
        let block = filter (set_has selected) ids in
        let rest = filter (λ j. not (set_has selected j)) ids in
        omega (
          arith,
          count-splice k (or_default (index_of moved rest) (length rest)) block rest,
          count-append k rest block,
          count-split (set_has selected) k ids,
        )

    drop_order-SameIds :
        (previous current : ℕ) (selected : JsSet) (rows : List String)
        → SameIds (drop_order previous current selected rows) rows
    unfolding drop_order
    drop_order-SameIds previous current selected rows k =
        let ids = move_item_in_array previous current rows in
        let same = moves.same previous current rows k in
        let block = with_block-SameIds selected (get_elem? rows previous) ids k in
        if_both (λ order. count k order ≡ count k rows)
          (moved_selected selected (get_elem? rows previous) && ltb 1 (length selected))
          (omega (arith, same, block)) same

    enabled_filtered :
        (p : ContentList) → reorder_enabled p ≡ true → filtered_items p ≡ p.facade.items
    unfolding reorder_enabled filtered_items
    enabled_filtered p h = ground (arith, h)

    -- Where the ids of the list are distinct, a drop while reordering is enabled lists the same
    -- ids, numbered from 1 on without a gap.
    pub on_drop_rearranges :
        (previous current : ℕ) (p : ContentList)
        → reorder_enabled p ≡ true
        → IsDistinct (ids_of p.facade.items)
        → let q = on_drop previous current p in
          (bag_of (ids_of q.facade.items) ≡ bag_of (ids_of p.facade.items))
          × IsNumbered 0 q.facade.items
    unfolding on_drop
    on_drop_rearranges previous current p h d =
        let ids = ids_of p.facade.items in
        let order = drop_order previous current p.selection ids in
        let same = drop_order-SameIds previous current p.selection ids in
        let (placed, kept, numbered) =
          reorder_rearranges order p.facade (SameIds-IsDistinct order ids same d) d
            (All-set_has order ids same) in
        rw (on_drop, h, enabled_filtered p h) (kept, numbered)
