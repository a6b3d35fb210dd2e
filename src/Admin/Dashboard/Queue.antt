-- ===== src/Admin/Dashboard/Queue.antt =====
-- The queue of the dashboard and the actions that it suggests.
use kiosk_screen.Prelude.{
  ℕ, suc, ◌≤◌, String, ◌≡◌, refl, sym, ap, ◌∙◌, true, not, Option, List, [], ◌∷◌, ◌++◌, map, Perm,
  arith, length, filter, All, length-take, All-filter, sort_by, IsSorted, sort_by-IsSorted,
  sort_by-perm, length-sort_by, set_has, All-take,
}
use mathlib.Core.List.Perm
use kiosk_screen.Admin.Content.{ContentItem}
use kiosk_screen.Admin.Dashboard.{
  ReadinessSlice, ContentQueueEntry, ContentQueueSlice, ContextualAction, is_queued, queue_entry,
  build_queue_slice,
}
use kiosk_screen.Admin.Dashboard.Fold.{
  blocker_action, content_action, check_action, hero_routes, derive_contextual_actions,
}

length-map-any : {A B : Type 0} (f : A → B) (xs : List A) → length (map f xs) ≡ length xs
length-map-any f [] = refl
length-map-any f (x ∷ xs) = ap suc (length-map-any f xs)

entries-All :
    (pinned : Option String) (n : ℕ) (xs : List ContentItem)
    → All (λ (x : ContentItem). n ≤ x.display_order) xs
    → All (λ (e : ContentQueueEntry). n ≤ e.display_order) (map (queue_entry pinned) xs)
unfolding queue_entry
entries-All pinned n [] h = tt
entries-All pinned n (x ∷ xs) h = (h.0, entries-All pinned n xs h.1)

entries-IsSorted :
    (pinned : Option String) (xs : List ContentItem)
    → IsSorted (λ (x : ContentItem). x.display_order) xs
    → IsSorted (λ (e : ContentQueueEntry). e.display_order) (map (queue_entry pinned) xs)
unfolding queue_entry
entries-IsSorted pinned [] h = tt
entries-IsSorted pinned (x ∷ xs) h =
    (entries-All pinned x.display_order xs h.0, entries-IsSorted pinned xs h.1)

-- The queue of the dashboard holds the entries of the active contents that are no novelties, each
-- once, in ascending order, and counts them.
pub build_queue_slice_lem :
    (items : List ContentItem) (pinned : Option String)
    → let slice = build_queue_slice items pinned in
      Perm slice.entries (map (queue_entry pinned) (filter is_queued items))
      × IsSorted (λ (e : ContentQueueEntry). e.display_order) slice.entries
      × (slice.active_content_count ≡ length slice.entries)
unfolding build_queue_slice
build_queue_slice_lem items pinned =
    let key = λ (x : ContentItem). x.display_order in
    let active = filter is_queued items in
    (
      Perm.map (queue_entry pinned) (sort_by-perm key active),
      entries-IsSorted pinned (sort_by key active) (sort_by-IsSorted key active),
      sym (length-map-any (queue_entry pinned) (sort_by key active) ∙ length-sort_by key active),
    )

-- At most four actions are suggested, and none of them leads to the display or to the remote
-- control, which have their own buttons.
pub derive_contextual_actions_lem :
    (readiness : Option ReadinessSlice) (queue : Option ContentQueueSlice)
    → let actions = derive_contextual_actions readiness queue in
      (length actions ≤ 4)
      × All (λ (a : ContextualAction). not (set_has hero_routes a.route) ≡ true) actions
unfolding derive_contextual_actions
derive_contextual_actions_lem readiness queue =
    let all = blocker_action readiness ++ content_action queue ++ check_action readiness in
    let allowed = λ (action : ContextualAction). not (set_has hero_routes action.route) in
    (
      omega (arith, length-take 4 (filter allowed all)),
      All-take (λ a. allowed a ≡ true) 4 (filter allowed all) (All-filter allowed all),
    )
