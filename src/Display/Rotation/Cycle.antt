-- ===== src/Display/Rotation/Cycle.antt =====
-- Stepping through a queue whose ids differ: `pickNext` and `pickPrevious` undo one another, and the
-- rotation passes through the positions one after the other.
use kiosk_screen.Prelude.{
  ℕ, zero, suc, ◌+◌, ◌-◌, ◌%◌, ◌<◌, ◌≡◌, sym, ap, ◌∙◌, ◌≢◌, true, Option, some, List, [], ◌∷◌,
  arith, eq_iff, eq_refl, non_empty, length, get_elem?, find_index, All, get_elem?-lt,
  All-get_elem?,
}
use mathlib.Core.Path.{◌≡⟨◌⟩◌, ◌∎}
use native.Mathlib.Decide.{dec_lt}
use native.Mathlib.Nat.{mod-eq_of_lt, mod_self, mod-add-mod, add-zero}
use kiosk_screen.Display.Item.{DisplayContentItem, has_id, item_id}
use kiosk_screen.Display.Rotation.{pick_next, pick_previous, next_index, previous_index}

-- Ids are not empty and no two items share one.
abbrev pub HasDistinctIds : List DisplayContentItem → Type 0
HasDistinctIds [] = Unit
HasDistinctIds (x ∷ xs) = (non_empty x.id ≡ true) × All (λ y. y.id ≢ x.id) xs × HasDistinctIds xs

pub find_index-get_elem? :
    (queue : List DisplayContentItem) (i : ℕ) (item : DisplayContentItem)
    → HasDistinctIds queue
    → get_elem? queue i ≡ some item
    → (non_empty item.id ≡ true) × (find_index (has_id item.id) queue ≡ some i)
find_index-get_elem? [] i item d e = absurd (ground arith)
find_index-get_elem? (x ∷ xs) zero item d e = ground (arith, eq_refl item.id)
find_index-get_elem? (x ∷ xs) (suc i) item d e =
    let other = All-get_elem? (λ y. y.id ≢ x.id) xs i item d.1 e in
    ground (arith, find_index-get_elem? xs i item d.2 e, eq_iff x.id item.id)

-- From the item at position i the next one is at (i + 1) modulo the length.
pub pick_next_at :
    (queue : List DisplayContentItem) (i : ℕ) (item : DisplayContentItem)
    → HasDistinctIds queue
    → get_elem? queue i ≡ some item
    → pick_next queue (some item.id) ≡ get_elem? queue ((i + 1) % length queue)
unfolding pick_next
pick_next_at [] i item d e = absurd (ground arith)
pick_next_at (x ∷ xs) i item d e =
    let (full, found) = find_index-get_elem? (x ∷ xs) i item d e in
    rw full (ap (λ o. get_elem? (x ∷ xs) (next_index (length (x ∷ xs)) o)) found)

pub pick_previous_at :
    (queue : List DisplayContentItem) (i : ℕ) (item : DisplayContentItem)
    → HasDistinctIds queue
    → get_elem? queue i ≡ some item
    → pick_previous queue (some item.id) ≡ get_elem? queue (previous_index (length queue) (some i))
unfolding pick_previous
pick_previous_at [] i item d e = absurd (ground arith)
pick_previous_at (x ∷ xs) i item d e =
    let (full, found) = find_index-get_elem? (x ∷ xs) i item d e in
    rw full (ap (λ o. get_elem? (x ∷ xs) (previous_index (length (x ∷ xs)) o)) found)

get_elem?-some-lt :
    (queue : List DisplayContentItem) (i : ℕ) (item : DisplayContentItem)
    → get_elem? queue i ≡ some item
    → i < length queue
get_elem?-some-lt [] i item e = absurd (ground arith)
get_elem?-some-lt (x ∷ xs) zero item e = omega arith
get_elem?-some-lt (x ∷ xs) (suc i) item e = omega (arith, get_elem?-some-lt xs i item e)

previous-next : (n i : ℕ) → i < n → previous_index n (some ((i + 1) % n)) ≡ i
previous-next n i h = elim (dec_lt (i + 1) n) [
  | yes p ↦ let e : (i + 1) % n ≡ suc i = omega (arith, mod-eq_of_lt p) in rw e
  | no p ↦ let e : n ≡ i + 1 = omega arith in rw (← e, mod_self) (omega arith)
]

previous_index-lt : (n i : ℕ) → i < n → previous_index n (some i) < n
previous_index-lt n zero h = omega arith
previous_index-lt n (suc i) h = omega arith

next-previous : (n i : ℕ) → i < n → (previous_index n (some i) + 1) % n ≡ i
next-previous n zero h = let e : n - 1 + 1 ≡ n = omega arith in rw (e, mod_self)
next-previous n (suc i) h = let e : i + 1 ≡ suc i = omega arith in rw e (mod-eq_of_lt h)

-- In a queue whose ids are distinct and not empty, stepping forward and then back returns to the
-- item.
pub pick_previous-pick_next :
    (queue : List DisplayContentItem) (i : ℕ) (item : DisplayContentItem)
    → HasDistinctIds queue
    → get_elem? queue i ≡ some item
    → pick_previous queue (item_id (pick_next queue (some item.id))) ≡ some item
pick_previous-pick_next queue i item d e =
    let lt = get_elem?-some-lt queue i item e in
    let j = (i + 1) % length queue in
    let (x, at) = get_elem?-lt queue j (omega arith) in
    pick_previous queue (item_id (pick_next queue (some item.id)))
    ≡⟨ ap (λ o. pick_previous queue (item_id o)) (pick_next_at queue i item d e ∙ at) ⟩
      pick_previous queue (some x.id)
    ≡⟨ pick_previous_at queue j x d at ⟩ get_elem? queue (previous_index (length queue) (some j))
    ≡⟨ ap (get_elem? queue) (previous-next (length queue) i lt) ∙ e ⟩ some item ∎

-- In a queue whose ids are distinct and not empty, stepping back and then forward returns to the
-- item.
pub pick_next-pick_previous :
    (queue : List DisplayContentItem) (i : ℕ) (item : DisplayContentItem)
    → HasDistinctIds queue
    → get_elem? queue i ≡ some item
    → pick_next queue (item_id (pick_previous queue (some item.id))) ≡ some item
pick_next-pick_previous queue i item d e =
    let lt = get_elem?-some-lt queue i item e in
    let j = previous_index (length queue) (some i) in
    let (x, at) = get_elem?-lt queue j (previous_index-lt (length queue) i lt) in
    pick_next queue (item_id (pick_previous queue (some item.id)))
    ≡⟨ ap (λ o. pick_next queue (item_id o)) (pick_previous_at queue i item d e ∙ at) ⟩
      pick_next queue (some x.id)
    ≡⟨ pick_next_at queue j x d at ⟩ get_elem? queue ((j + 1) % length queue)
    ≡⟨ ap (get_elem? queue) (next-previous (length queue) i lt) ∙ e ⟩ some item ∎

-- `k` steps of the rotation from an item.
abbrev pub steps :
    List DisplayContentItem → ℕ → Option DisplayContentItem → Option DisplayContentItem
steps queue zero from = from
steps queue (suc k) from = pick_next queue (item_id (steps queue k from))

-- Rotating is fair: in a queue whose ids are distinct and not empty, after k steps from position i
-- the rotation stands at position (i + k) modulo the length.
pub steps_at :
    (queue : List DisplayContentItem) (i k : ℕ) (item : DisplayContentItem)
    → HasDistinctIds queue
    → get_elem? queue i ≡ some item
    → steps queue k (some item) ≡ get_elem? queue ((i + k) % length queue)
steps_at queue i zero item d e =
    let lt = get_elem?-some-lt queue i item e in
    let same : (i + 0) % length queue ≡ i = rw add-zero (mod-eq_of_lt lt) in rw same (sym e)
steps_at queue i (suc k) item d e =
    let lt = get_elem?-some-lt queue i item e in
    let j = (i + k) % length queue in
    let (x, at) = get_elem?-lt queue j (omega arith) in
    let here = steps_at queue i k item d e ∙ at in
    steps queue (suc k) (some item)
    ≡⟨ ap (λ o. pick_next queue (item_id o)) here ⟩ pick_next queue (some x.id)
    ≡⟨ pick_next_at queue j x d at ⟩ get_elem? queue ((j + 1) % length queue)
    ≡⟨ ap (get_elem? queue) (mod-add-mod (i + k) _ 1 ∙ ap (λ a. a % length queue) (omega arith)) ⟩
      get_elem? queue ((i + suc k) % length queue) ∎
