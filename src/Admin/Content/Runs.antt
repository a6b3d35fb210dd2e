-- ===== src/Admin/Content/Runs.antt =====
-- Runs of the contents' facade: its operations and the answers of the server, in any order.
use kiosk_screen.Prelude.{ℕ, String, Bool, Option, List, [], ◌∷◌, map, arith}
use kiosk_screen.Admin.Catalog.{with_flag, flags_into}
use kiosk_screen.Admin.Facade.{
  update, keep_items, restore_flags, Answer, refresh, load, remove, clear_error, clear_current,
  remove_many, reorder, answer,
}
use kiosk_screen.Admin.Facade.Spinner.{
  IsSettling, refresh-IsSettling, load-IsSettling, answer-IsSettling, send_all-IsSettling,
  remove-IsSettling, remove_many-IsSettling, reorder-IsSettling, clear_error-IsSettling,
  clear_current-IsSettling,
}
use kiosk_screen.Admin.Content.{
  ContentItem, ContentItemRequest, content_listed, ContentFacade, initial_facade, to_update_payload,
  save, upload, upload_many, set_active_many,
}

pub data ContentEvent : Type 0 where
  refreshed : Bool → ContentEvent
  loaded : String → ContentEvent
  saved : ContentItemRequest → Option String → ContentEvent
  uploaded : ContentItemRequest → ℕ → Option String → ContentEvent
  uploaded_many : (ℕ → ContentItemRequest) → List ℕ → ContentEvent
  removed : String → ContentEvent
  removed_many : List String → ContentEvent
  activated : List ContentItem → Bool → ContentEvent
  reordered_by : List String → ContentEvent
  error_cleared current_cleared : ContentEvent
  answer_came : ℕ → Answer ContentItem → ContentEvent

unfoldable pub content_step : ContentFacade → ContentEvent → ContentFacade
content_step f (refreshed silent) = refresh silent f
content_step f (loaded id) = load id f
content_step f (saved payload id) = save payload id f
content_step f (uploaded payload file id) = upload payload file id f
content_step f (uploaded_many payloads files) = upload_many payloads files f
content_step f (removed id) = remove id f
content_step f (removed_many ids) = remove_many ids f
content_step f (activated items active) = set_active_many items active f
content_step f (reordered_by ids) = reorder ids f
content_step f error_cleared = clear_error f
content_step f current_cleared = clear_current f
content_step f (answer_came i a) = answer i a f

abbrev pub content_run : ContentFacade → List ContentEvent → ContentFacade
content_run f [] = f
content_run f (e ∷ es) = content_run (content_step f e) es

content_step-IsSettling :
    (f : ContentFacade) (e : ContentEvent) → IsSettling f → IsSettling (content_step f e)
unfolding content_step save upload upload_many set_active_many
content_step-IsSettling f (refreshed silent) h = refresh-IsSettling silent f h
content_step-IsSettling f (loaded id) h = load-IsSettling id f h
content_step-IsSettling f (saved payload id) h = send_all-IsSettling keep_items (_ ∷ []) f.items f h
content_step-IsSettling f (uploaded payload file id) h =
    send_all-IsSettling keep_items (_ ∷ []) f.items f h
content_step-IsSettling f (uploaded_many payloads files) h =
    send_all-IsSettling keep_items _ f.items f h
content_step-IsSettling f (removed id) h = remove-IsSettling id f h
content_step-IsSettling f (removed_many ids) h = remove_many-IsSettling ids f h
content_step-IsSettling f (activated [] active) h = h
content_step-IsSettling f (activated (x ∷ xs) active) h =
    send_all-IsSettling (restore_flags (flags_into [] (x ∷ xs)))
      (map (λ (item : ContentItem). update item.id (to_update_payload item active)) (x ∷ xs))
      (with_flag (flags_into [] (x ∷ xs)) active f.items) f h
content_step-IsSettling f (reordered_by ids) h = reorder-IsSettling ids f h
content_step-IsSettling f error_cleared h = clear_error-IsSettling f h
content_step-IsSettling f current_cleared h = clear_current-IsSettling f h
content_step-IsSettling f (answer_came i a) h = answer-IsSettling i a f h

content_run_from :
    (es : List ContentEvent) (f : ContentFacade) → IsSettling f → IsSettling (content_run f es)
content_run_from [] f h = h
content_run_from (e ∷ es) f h =
    content_run_from es (content_step f e) (content_step-IsSettling f e h)

-- After any sequence of operations and answers, in any order, the contents' page shows that it
-- saves only while a change that it sent is unanswered, and that it loads only while a loud
-- refresh or the load of an item is unanswered.
pub content_run-IsSettling : (es : List ContentEvent) → IsSettling (content_run initial_facade es)
content_run-IsSettling es =
    content_run_from es initial_facade
      (record { saves = λ on. absurd (ground arith); loads = λ on. absurd (ground arith) })
