-- ===== src/Display/Controller/Upkeep.antt =====
-- The upkeep of the counters on a poll, the report of an empty queue, and the listeners.
use kiosk_screen.Prelude.{
  ℕ, ◌+◌, ◌-◌, ◌<◌, String, ◌≡◌, refl, ◌≢◌, inl, inr, true, not, ◌&&◌, none, some, List, [], ◌∷◌,
  ◌++◌, arith, ltb, if◌then◌else◌, Bool-cases, All, JsMap, map_get, map_set, map_get-map_set,
  set_has,
}
use kiosk_screen.Display.Item.{DisplayContentItem}
use kiosk_screen.Display.Controller.State.{
  Controller, is_nil, schedule_empty_queue_check, fire_empty_queue,
}
use kiosk_screen.Display.Cadence.{filler_queue, reset_counter}
use kiosk_screen.Display.Controller.Commands.{
  remove_first, register_content_advance_listener, unsubscribe,
}
use kiosk_screen.Display.Cadence.{
  has_recurring_items, cadence_changes, prune_counters, clear_counters,
}
use kiosk_screen.Display.Cadence.Counters.{map_get-prune_counters}
use kiosk_screen.Display.Controller.Inputs.{synced_counters, reset_all, ids_of}

map_get-reset_all :
    (ids : List String) (counters : JsMap ℕ) (k : String)
    → map_get (reset_all ids counters) k ≡ (if set_has ids k then some 0 else map_get counters k)
unfolding reset_counter
map_get-reset_all [] counters k = refl
map_get-reset_all (id ∷ ids) counters k =
    ground (arith, map_get-reset_all ids (map_set counters id 0) k, map_get-map_set counters id k 0)

-- After a poll each counter is the one that the queue calls for: 0 for an item whose cadence is new or
-- other than before, the old one for any other active recurring item, and none for the rest.
pub map_get-synced_counters :
    (last counters : JsMap ℕ) (queue : List DisplayContentItem) (k : String)
    → map_get (synced_counters last counters queue) k ≡ (
        if has_recurring_items queue
        then (if set_has (cadence_changes last queue) k
            then some 0
            else if set_has (ids_of (filler_queue queue)) k
            then map_get counters k
            else none)
        else none)
unfolding synced_counters clear_counters
map_get-synced_counters last counters queue k = elim (Bool-cases (has_recurring_items queue)) [
  | inl e ↦
      let ids = ids_of (filler_queue queue) in
      ground (
        arith,
        map_get-reset_all (cadence_changes last queue) (prune_counters counters ids) k,
        map_get-prune_counters counters ids k,
      )
  | inr e ↦ ground arith
]

-- After a report at a time other than 0, a check of a queue that is still empty arms the next report
-- only once 60 s have passed; a check of a queue with items arms none and forgets the report.
pub report_at_most_once_a_minute :
    (at now : ℕ) (s : Controller)
    → 0 < at
    → s.empty_queue_timer ≡ true
    → let t = schedule_empty_queue_check now (fire_empty_queue at s) in
      (t.reports ≡ s.reports + 1)
      × (t.empty_queue_timer ≡ (is_nil s.content_queue && not (ltb (now - at) 60000)))
      × (t.empty_queue_reported_at ≡ (if is_nil s.content_queue then at else 0))
unfolding schedule_empty_queue_check fire_empty_queue
report_at_most_once_a_minute at now s some_time armed = ground arith

abbrev NotIn : ℕ → List ℕ → Type 0
NotIn l = All (λ (x : ℕ). x ≢ l)

remove_first-append : (l : ℕ) (xs : List ℕ) → NotIn l xs → remove_first l (xs ++ l ∷ []) ≡ xs
remove_first-append l [] h = ground arith
remove_first-append l (x ∷ xs) h = ground (arith, remove_first-append l xs h.1)

-- Unsubscribing a listener that was registered once restores the listeners, in their order.
pub unsubscribe-register :
    (l : ℕ) (s : Controller)
    → NotIn l s.listeners
    → (unsubscribe l (register_content_advance_listener l s)).listeners ≡ s.listeners
unfolding unsubscribe register_content_advance_listener
unsubscribe-register l s h = remove_first-append l s.listeners h
