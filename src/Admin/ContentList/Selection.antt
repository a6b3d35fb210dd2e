-- ===== src/Admin/ContentList/Selection.antt =====
-- Selecting rows and turning pages.
use kiosk_screen.Prelude.{
  ◌+◌, ◌-◌, ◌<◌, String, ◌≡◌, refl, Bool, true, false, not, ◌&&◌, ◌||◌, List, [], ◌∷◌, arith,
  eq_iff, ltb, ◌==◌, length, any, All, All-filter, JsSet, set_has, set_add, set_has-set_add,
}
use kiosk_screen.Admin.Catalog.{ids_of}
use kiosk_screen.Admin.Content.{ContentItem, content_listed}
use kiosk_screen.Admin.Pages.Cover.{clamped_page}
use kiosk_screen.Admin.ContentList.{
  ContentList, filtered_items, filtered_total, rows, every_selected, all_checked, some_checked,
  settle_page, clear_selection, can_go_next, go_to_next_page, can_go_previous, go_to_previous_page,
  set_of, toggle_all, prune_selection,
}

set_has-set_of :
    (ks s : List String) (k : String) → set_has (set_of s ks) k ≡ (set_has s k || set_has ks k)
set_has-set_of [] s k = ground arith
set_has-set_of (j ∷ ks) s k =
    ground (arith, set_has-set_of ks (set_add s j) k, set_has-set_add s j k)

every_of_selected :
    (s : JsSet) (xs : List ContentItem)
    → ((k : String) → set_has (ids_of xs) k ≡ true → set_has s k ≡ true)
    → every_selected s xs ≡ true
every_of_selected s [] h = refl
every_of_selected s (x ∷ xs) h =
    ground
      (arith, h x.id, eq_iff x.id x.id, every_of_selected s xs (λ k e. h k (ground (arith, e))))

none_selected : (xs : List ContentItem) → any (λ (x : ContentItem). set_has [] x.id) xs ≡ false
none_selected [] = refl
none_selected (x ∷ xs) = none_selected xs

toggled_on :
    (p : ContentList)
    → 0 < length (rows p)
    → toggle_all true p ≡ record p { selection = set_of [] (ids_of (rows p)) }
unfolding toggle_all
toggled_on p h =
    let e : (length (rows p) == 0) ≡ false = ground (arith, h) in rw (toggle_all, e) refl

toggled_off :
    (p : ContentList) → 0 < length (rows p) → toggle_all false p ≡ record p { selection = [] }
unfolding toggle_all clear_selection
toggled_off p h =
    let e : (length (rows p) == 0) ≡ false = ground (arith, h) in rw (toggle_all, e) refl

-- Whether the box above the rows is full, and whether it is so in part.
abbrev BoxIs : Bool → Bool → JsSet → List ContentItem → Type 0
BoxIs full part s xs =
    let some_rows = not (length xs == 0) in
    let all = some_rows && every_selected s xs in
    (all ≡ full) × (some_rows && any (λ (x : ContentItem). set_has s x.id) xs && not all ≡ part)

box_full :
    (s : JsSet) (xs : List ContentItem)
    → 0 < length xs
    → every_selected s xs ≡ true
    → BoxIs true false s xs
box_full s xs h e =
    let some_rows : (length xs == 0) ≡ false = ground (arith, h) in ground (arith, some_rows, e)

every_of_none : (xs : List ContentItem) → 0 < length xs → every_selected [] xs ≡ false
every_of_none [] h = absurd (omega (arith, h))
every_of_none (x ∷ xs) h = refl

box_empty : (xs : List ContentItem) → 0 < length xs → BoxIs false false [] xs
box_empty xs h =
    let some_rows : (length xs == 0) ≡ false = ground (arith, h) in
    let nothing = every_of_none xs h in
    let no_row = none_selected xs in ground (arith, some_rows, nothing, no_row)

-- The box above the rows: where there are rows, checking it checks it fully, and unchecking it
-- leaves it neither full nor in part.
pub toggle_all_checks :
    (p : ContentList)
    → 0 < length (rows p)
    → (all_checked (toggle_all true p) ≡ true)
      × (some_checked (toggle_all true p) ≡ false)
      × (all_checked (toggle_all false p) ≡ false)
      × (some_checked (toggle_all false p) ≡ false)
unfolding all_checked some_checked filtered_items
toggle_all_checks p h =
    let full : every_selected (set_of [] (ids_of (rows p))) (rows p) ≡ true =
      every_of_selected (set_of [] (ids_of (rows p))) (rows p)
        (λ k e. ground (arith, e, set_has-set_of (ids_of (rows p)) [] k)) in
    let on = box_full (set_of [] (ids_of (rows p))) (rows p) h full in
    let off = box_empty (rows p) h in
    rw (toggled_on p h, toggled_off p h) (on.0, on.1, off.0, off.1)

-- Where any rows pass the filter, the page that is shown has some once the effect of the page has
-- run.
pub settled_page_has_rows :
    (p : ContentList) → 0 < filtered_total p → 0 < length (rows (settle_page p))
unfolding settle_page filtered_items
settled_page_has_rows p h = clamped_page (filtered_items p) p.page_index p.page_size h

-- After the server's stream has brought new items, whatever is selected is in the list.
pub pruned_selection_is_listed :
    (p : ContentList)
    → let q = prune_selection p in All (λ k. set_has (ids_of q.facade.items) k ≡ true) q.selection
unfolding prune_selection
pruned_selection_is_listed p = All-filter (set_has (ids_of p.facade.items)) p.selection

-- Turning to the next page and back shows the page again, with nothing selected.
pub next_then_previous :
    (p : ContentList)
    → can_go_next p ≡ true
    → go_to_previous_page (go_to_next_page p) ≡ clear_selection p
unfolding go_to_previous_page go_to_next_page clear_selection can_go_previous
next_then_previous p h =
    let forward : ltb 0 (p.page_index + 1) ≡ true = ground arith in
    let back : p.page_index + 1 - 1 ≡ p.page_index = omega arith in
    rw (go_to_next_page, h, go_to_previous_page, can_go_previous, forward, back) refl
