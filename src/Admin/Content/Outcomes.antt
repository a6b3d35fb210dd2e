-- ===== src/Admin/Content/Outcomes.antt =====
-- The outcomes of the changes of the contents' page.
use kiosk_screen.Prelude.{
  ℕ, suc, ◌<◌, String, ◌≡◌, refl, sym, ap, Bool, true, false, not, Option, none, some, List, [],
  ◌∷◌, ◌++◌, map, arith, if◌then◌else◌, length, filter, All, set_has, IsDistinct, bag_of,
}
use kiosk_screen.Admin.Catalog.{
  ids_of, without, with_flag, flags_into, with_flags, reordered, item_with, IsNumbered,
}
use kiosk_screen.Admin.Catalog.Order.{bag_of-reordered, ids_of-reordered, reordered-IsNumbered}
use kiosk_screen.Admin.Catalog.Lookup.{flags_restored, item_with-without}
use kiosk_screen.Admin.Errors.{ErrorBody, adapt_api_error}
use kiosk_screen.Admin.Facade.{
  Call, update, delete, reorder_items, restore_items, restore_flags, restore_and_refresh,
  refreshing, failed, refresh, begin_saving, finish, remove_many, reorder, recover, answer,
}
use kiosk_screen.Admin.Facade.Rollback.{confirm, row_confirmed, row_failed}
use kiosk_screen.Admin.Content.{
  ContentItem, ContentItemRequest, content_listed, ContentFacade, to_update_payload,
  set_active_many,
}

-- The change at place i of the requests in flight fails after k of its requests were confirmed.
abbrev pub fails_after : ℕ → ℕ → Option ErrorBody → ContentFacade → ContentFacade
fails_after i k e f = answer i (failed e) (confirm i k f)

-- The list is `items`, the failure is shown and nothing is being saved.
abbrev pub IsRolledBack : List ContentItem → Option ErrorBody → ContentFacade → Type 0
IsRolledBack items e f =
    (f.items ≡ items) × (f.error ≡ some (adapt_api_error e)) × (f.saving ≡ false)

length-map :
    (g : String → Call ContentItemRequest) (xs : List String) → length (map g xs) ≡ length xs
length-map g [] = refl
length-map g (x ∷ xs) = ap suc (length-map g xs)

-- If a bulk removal fails at one of its deletes, whichever, the page shows the failure, stops
-- saving and lists all items as before, those included whose deletion the server had confirmed.
pub remove_many_failed :
    (ids : List String) (k : ℕ) (e : Option ErrorBody) (f : ContentFacade)
    → k < length ids
    → IsRolledBack f.items e (fails_after (length f.in_flight) k e (remove_many ids f))
unfolding remove_many recover
remove_many_failed [] k e f h = absurd (omega (arith, h))
remove_many_failed (id ∷ ids) k e f h =
    rw
      (row_failed (restore_items f.items) k (map delete (id ∷ ids)) e
        (record (begin_saving f) { items = without (id ∷ ids) f.items })
        (omega (arith, h, length-map delete ids)))
      (refl, refl, refl)

-- A bulk removal whose deletes are all confirmed is the removal of these ids from the map of the
-- items: under each id the list then has nothing if the id was removed, and what it had if not.
pub remove_many_confirmed :
    (ids : List String) (k : String) (f : ContentFacade)
    → item_with k (confirm (length f.in_flight) (length ids) (remove_many ids f)).items
      ≡ (if set_has ids k then none else item_with k f.items)
unfolding remove_many finish refresh
remove_many_confirmed [] k f = refl
remove_many_confirmed (id ∷ ids) k f =
    rw
      (
        sym (length-map delete (id ∷ ids)),
        row_confirmed (restore_items f.items) (map delete (id ∷ ids))
            (record (begin_saving f) { items = without (id ∷ ids) f.items }),
      )
      (item_with-without (id ∷ ids) k f.items)

length-updates :
    (active : Bool) (xs : List ContentItem)
    → length (map (λ (item : ContentItem). update item.id (to_update_payload item active)) xs)
      ≡ length xs
length-updates active [] = refl
length-updates active (x ∷ xs) = ap suc (length-updates active xs)

activation_failed :
    (chosen : List ContentItem) (active : Bool) (k : ℕ) (e : Option ErrorBody) (f : ContentFacade)
    → k < length chosen
    → let m = flags_into [] chosen in
      with_flags m (with_flag m active f.items) ≡ f.items
      → IsRolledBack f.items e
          (fails_after (length f.in_flight) k e (set_active_many chosen active f))
unfolding set_active_many recover
activation_failed [] active k e f h same = absurd (omega (arith, h))
activation_failed (x ∷ xs) active k e f h same =
    let m = flags_into [] (x ∷ xs) in
    rw
      (row_failed (restore_flags m) k
        (map (λ (item : ContentItem). update item.id (to_update_payload item active)) (x ∷ xs)) e
        (record (begin_saving f) { items = with_flag m active f.items })
        (omega (arith, h, length-updates active (x ∷ xs))))
      (same, refl, refl)

-- If the bulk activation of some of the listed items, whose ids are distinct, fails at one of its
-- updates, whichever, the page shows the failure, stops saving and lists the items as before.
pub set_active_many_failed :
    (p : ContentItem → Bool) (active : Bool) (k : ℕ) (e : Option ErrorBody) (f : ContentFacade)
    → IsDistinct (ids_of f.items)
    → k < length (filter p f.items)
    → IsRolledBack f.items e
        (fails_after (length f.in_flight) k e (set_active_many (filter p f.items) active f))
set_active_many_failed p active k e f d h =
    activation_failed (filter p f.items) active k e f h (flags_restored p active f.items d)

-- If a reorder fails, the list is as before and is loaded anew, nothing is being saved, and no
-- failure is shown: the refresh takes it away at once.
pub reorder_failed :
    (ids : List String) (e : Option ErrorBody) (f : ContentFacade)
    → let g = fails_after (length f.in_flight) 0 e (reorder ids f) in
      (g.items ≡ f.items)
      × (g.in_flight ≡ f.in_flight ++ refreshing false ∷ [])
      × (g.saving ≡ false)
      × (g.error ≡ none)
unfolding reorder recover refresh
reorder_failed ids e f =
    rw
      (row_failed (restore_and_refresh f.items) 0 (reorder_items ids ∷ []) e
        (record (begin_saving f) { items = reordered ids f.items }) (omega arith))
      (refl, refl, refl, refl)

-- If the ids of the list are distinct, and the ids to reorder by are distinct and all in the list,
-- the page at once lists these first, in the order in which they are given, and the other items
-- after them, in the order that they had: the same ids, numbered from 1 on without a gap.
pub reorder_rearranges :
    (ids : List String) (f : ContentFacade)
    → IsDistinct ids
    → IsDistinct (ids_of f.items)
    → All (λ k. set_has (ids_of f.items) k ≡ true) ids
    → let g = reorder ids f in
      (ids_of g.items ≡ ids ++ filter (λ k. not (set_has ids k)) (ids_of f.items))
      × (bag_of (ids_of g.items) ≡ bag_of (ids_of f.items))
      × IsNumbered 0 g.items
unfolding reorder
reorder_rearranges ids f distinct d known = (
  ids_of-reordered ids f.items d known,
  bag_of-reordered ids f.items distinct d,
  reordered-IsNumbered ids f.items d known,
)
