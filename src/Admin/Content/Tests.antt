-- ===== src/Admin/Content/Tests.antt =====
-- Runs of the contents' facade on three photos.
use kiosk_screen.Prelude.{◌≡◌, refl, true, false, none, List, [], ◌∷◌, arith, filter, bag_of}
use kiosk_screen.Admin.Catalog.{ids_of, reordered, IsNumbered, item_with}
use kiosk_screen.Admin.Facade.{
  refreshing, listed, done, failed, refresh, finish, remove_many, reorder, recover, answer,
}
use kiosk_screen.Admin.Facade.Rollback.{confirm}
use kiosk_screen.Admin.Facade.Spinner.{IsSettling}
use kiosk_screen.Admin.Content.{content_listed, initial_facade, set_active_many}
use kiosk_screen.Admin.Content.Runs.{
  ContentEvent, refreshed, removed_many, reordered_by, answer_came, content_step, content_run,
  content_run-IsSettling,
}
use kiosk_screen.Admin.Content.Outcomes.{
  fails_after, IsRolledBack, remove_many_failed, remove_many_confirmed, set_active_many_failed,
  reorder_failed, reorder_rearranges,
}
use kiosk_screen.Admin.Content.Samples.{three, three-IsDistinct}

abbrev session : List ContentEvent
session =
    refreshed false
    ∷ answer_came 0 (listed three.items)
    ∷ removed_many ("a" ∷ "b" ∷ [])
    ∷ answer_came 0 done
    ∷ answer_came 0 (failed none)
    ∷ reordered_by ("c" ∷ "a" ∷ [])
    ∷ []

content_run-session :
    (ids_of (content_run initial_facade session).items ≡ "c" ∷ "a" ∷ "b" ∷ [])
    × ((content_run initial_facade session).saving ≡ true)
unfolding content_step refresh answer recover finish remove_many reorder reordered
content_run-session = (refl, refl)

content_run-IsSettling_example : IsSettling (content_run initial_facade session)
content_run-IsSettling_example = content_run-IsSettling session

remove_many_failed_example :
    IsRolledBack three.items none (fails_after 0 1 none (remove_many ("a" ∷ "b" ∷ []) three))
remove_many_failed_example = remove_many_failed ("a" ∷ "b" ∷ []) 1 none three (omega arith)

remove_many_confirmed_example :
    item_with "a" (confirm 0 2 (remove_many ("a" ∷ "b" ∷ []) three)).items ≡ none
remove_many_confirmed_example = remove_many_confirmed ("a" ∷ "b" ∷ []) "a" three

set_active_many_failed_example :
    IsRolledBack three.items none
      (fails_after 0 1 none (set_active_many (filter (λ x. x.is_active) three.items) false three))
set_active_many_failed_example =
    set_active_many_failed (λ x. x.is_active) false 1 none three three-IsDistinct (omega arith)

reorder_failed_example :
    let g = fails_after 0 0 none (reorder ("c" ∷ "a" ∷ []) three) in
    (g.items ≡ three.items)
    × (g.in_flight ≡ refreshing false ∷ [])
    × (g.saving ≡ false)
    × (g.error ≡ none)
reorder_failed_example = reorder_failed ("c" ∷ "a" ∷ []) none three

reorder_rearranges_example :
    let g = reorder ("c" ∷ "a" ∷ []) three in
    (ids_of g.items ≡ "c" ∷ "a" ∷ "b" ∷ [])
    × (bag_of (ids_of g.items) ≡ bag_of (ids_of three.items))
    × IsNumbered 0 g.items
reorder_rearranges_example =
    reorder_rearranges ("c" ∷ "a" ∷ []) three (refl, (refl, tt)) three-IsDistinct (refl, (refl, tt))
