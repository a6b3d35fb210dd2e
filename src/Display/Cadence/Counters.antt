-- ===== src/Display/Cadence/Counters.antt =====
-- The counters of the recurring items, and when an item falls due.
use kiosk_screen.Prelude.{
  ℕ, zero, suc, ◌+◌, String, ◌≡◌, ap, ◌∙◌, inl, inr, none, List, [], ◌∷◌, arith, eq_refl, leb,
  if◌then◌else◌, str_eq, Bool-cases, str_eq→eq, JsMap, map_get, map_set, map_get-map_set, set_has,
}
use kiosk_screen.Display.Item.{DisplayContentItem}
use kiosk_screen.Display.Cadence.{
  cadence_of, counter_of, increment_counters, is_due, reset_counter, prune_counters,
}

-- How many items have the id.
abbrev pub occurrences : String → List DisplayContentItem → ℕ
occurrences k [] = 0
occurrences k (x ∷ xs) = (if str_eq x.id k then 1 else 0) + occurrences k xs

counter_of-map_set :
    (counters : JsMap ℕ) (j k : String) (n : ℕ)
    → counter_of (map_set counters j n) k ≡ (if str_eq j k then n else counter_of counters k)
counter_of-map_set counters j k n = ground (arith, map_get-map_set counters j k n)

-- Incrementing adds one to the counter of each item given, and to no other counter.
pub counter_of-increment_counters :
    (counters : JsMap ℕ) (items : List DisplayContentItem) (k : String)
    → counter_of (increment_counters counters items) k ≡ counter_of counters k + occurrences k items
unfolding increment_counters
counter_of-increment_counters counters [] k = omega arith
counter_of-increment_counters counters (x ∷ xs) k =
    let next = map_set counters x.id (counter_of counters x.id + 1) in
    elim (Bool-cases (str_eq x.id k)) [
      | inl e ↦ rw e (
          omega (
            arith,
            counter_of-increment_counters next xs k,
            counter_of-map_set counters x.id k (counter_of counters x.id + 1)
                ∙ ap (λ b. if b then counter_of counters x.id + 1 else counter_of counters k) e,
            ap (counter_of counters) (str_eq→eq _ _ e),
          ))
      | inr e ↦ rw e (
          omega (
            arith,
            counter_of-increment_counters next xs k,
            counter_of-map_set counters x.id k (counter_of counters x.id + 1)
                ∙ ap (λ b. if b then counter_of counters x.id + 1 else counter_of counters k) e,
          ))
    ]

pub counter_of-reset_counter :
    (counters : JsMap ℕ) (j k : String)
    → counter_of (reset_counter counters j) k ≡ (if str_eq j k then 0 else counter_of counters k)
unfolding reset_counter
counter_of-reset_counter counters j k = counter_of-map_set counters j k 0

-- Pruning keeps exactly the counters of the ids that are still active.
pub map_get-prune_counters :
    (counters : JsMap ℕ) (ids : List String) (k : String)
    → map_get (prune_counters counters ids) k ≡ (if set_has ids k then map_get counters k else none)
unfolding prune_counters
map_get-prune_counters [] ids k = ground arith
map_get-prune_counters ((j, n) ∷ counters) ids k = elim (Bool-cases (str_eq j k)) [
  | inl e ↦
      let same : set_has ids j ≡ set_has ids k = ap (set_has ids) (str_eq→eq j k e) in
      ground (arith, map_get-prune_counters counters ids k)
  | inr e ↦ ground (arith, map_get-prune_counters counters ids k)
]

-- `m` transitions in a row, with no reset between them.
abbrev pub increments : ℕ → JsMap ℕ → List DisplayContentItem → JsMap ℕ
increments zero counters items = counters
increments (suc m) counters items = increment_counters (increments m counters items) items

counter_of-increments :
    (m : ℕ) (counters : JsMap ℕ) (items : List DisplayContentItem) (k : String)
    → occurrences k items ≡ 1
    → counter_of (increments m counters items) k ≡ counter_of counters k + m
counter_of-increments zero counters items k once = omega arith
counter_of-increments (suc m) counters items k once = omega (
  arith,
  counter_of-increment_counters (increments m counters items) items k,
  counter_of-increments m counters items k once,
)

-- An item that was just shown and is counted once in each transition is due after m transitions
-- exactly if m is at least its cadence.
pub is_due-increments :
    (m : ℕ) (counters : JsMap ℕ) (items : List DisplayContentItem) (item : DisplayContentItem)
    → occurrences item.id items ≡ 1
    → is_due (increments m (reset_counter counters item.id) items) item ≡ leb (cadence_of item) m
is_due-increments m counters items item once = ap (leb (cadence_of item)) (
    counter_of-increments m (reset_counter counters item.id) items item.id once
    ∙ ap (λ n. n + m) (counter_of-reset_counter counters item.id item.id)
    ∙ rw eq_refl (omega arith))
