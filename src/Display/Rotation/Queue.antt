-- ===== src/Display/Rotation/Queue.antt =====
-- What a rotation queue offers: its items come in display order, and a pick is one of them.
use kiosk_screen.Prelude.{
  ℕ, zero, suc, ◌%◌, ◌<◌, String, ◌≡◌, refl, inl, inr, Bool, true, false, not, ◌&&◌, Option, none,
  some, List, [], ◌∷◌, Perm, arith, Bool-cases, non_empty, length, filter, All, get_elem?-lt,
  find_index-lt, All-get_elem?, IsSorted, sort_by-All, sort_by-IsSorted, sort_by-perm, JsSet,
  set_has,
}
use kiosk_screen.Display.Item.{DisplayContentItem, has_id, is_true}
use kiosk_screen.Display.Rotation.{
  display_order, pending_novelties, pick_next, pick_previous, index_of, next_index, previous_index,
}

abbrev pub IsPendingNovelty : JsSet → DisplayContentItem → Type 0
IsPendingNovelty skip item = (is_true item.is_novelty ≡ true) × (set_has skip item.id ≡ false)

and_not : (a b : Bool) → (a && not b) ≡ true → (a ≡ true) × (b ≡ false)
and_not a b h = ground arith

filter-IsPendingNovelty :
    (items : List DisplayContentItem) (skip : JsSet)
    → All
        (IsPendingNovelty skip)
        (filter (λ item. is_true item.is_novelty && not (set_has skip item.id)) items)
filter-IsPendingNovelty [] skip = tt
filter-IsPendingNovelty (x ∷ xs) skip =
    elim (Bool-cases (is_true x.is_novelty && not (set_has skip x.id))) [
      | inl e ↦ rw e (and_not _ _ e, filter-IsPendingNovelty xs skip)
      | inr e ↦ rw e (filter-IsPendingNovelty xs skip)
    ]

-- The pending items are novelties outside the skip set, in ascending display order, and they are
-- a rearrangement of all the items of the queue that pass both tests.
pub pending_novelties_lem :
    (items : List DisplayContentItem) (skip : JsSet)
    → All (IsPendingNovelty skip) (pending_novelties items skip)
      × IsSorted display_order (pending_novelties items skip)
      × Perm
          (pending_novelties items skip)
          (filter (λ item. is_true item.is_novelty && not (set_has skip item.id)) items)
unfolding pending_novelties
pending_novelties_lem items skip =
    let kept : List DisplayContentItem =
      filter (λ item. is_true item.is_novelty && not (set_has skip item.id)) items in
    (
      sort_by-All display_order (IsPendingNovelty skip) kept (filter-IsPendingNovelty items skip),
      sort_by-IsSorted display_order kept,
      sort_by-perm display_order kept,
    )

mod_lt : (a n : ℕ) → a % suc n < suc n
mod_lt a n = omega arith

next_index-lt : (n : ℕ) (i : Option ℕ) → next_index (suc n) i < suc n
next_index-lt n none = omega arith
next_index-lt n (some i) = omega arith

-- A queue with items always has a next one, and it is an item of the queue.
pub pick_next-some :
    {P : DisplayContentItem → Type 0} (queue : List DisplayContentItem) (k : Option String)
    → 0 < length queue
    → All P queue
    → (item : DisplayContentItem) × (pick_next queue k ≡ some item) × P item
unfolding pick_next
pick_next-some [] k h all = absurd (omega arith)
pick_next-some {P} (x ∷ xs) k h all =
    let i = next_index (length (x ∷ xs)) (index_of (x ∷ xs) k none) in
    let (item, e) =
      get_elem?-lt (x ∷ xs) i (next_index-lt (length xs) (index_of (x ∷ xs) k none)) in
    (item, e, All-get_elem? P (x ∷ xs) i item all e)

previous_index-lt :
    (n : ℕ) (o : Option ℕ) → ((i : ℕ) → o ≡ some i → i < suc n) → previous_index (suc n) o < suc n
previous_index-lt n none h = omega arith
previous_index-lt n (some zero) h = omega arith
previous_index-lt n (some (suc i)) h = omega (arith, h (suc i) refl)

index_of-lt :
    (x : DisplayContentItem) (xs : List DisplayContentItem) (k : Option String) (i : ℕ)
    → index_of (x ∷ xs) k (some 0) ≡ some i
    → i < suc (length xs)
index_of-lt x xs none i h = ground arith
index_of-lt x xs (some k) i h = elim (Bool-cases (non_empty k)) [
  | inl e ↦ find_index-lt (has_id k) (x ∷ xs) i (ground arith)
  | inr e ↦ ground arith
]

pub pick_previous-some :
    {P : DisplayContentItem → Type 0} (queue : List DisplayContentItem) (k : Option String)
    → 0 < length queue
    → All P queue
    → (item : DisplayContentItem) × (pick_previous queue k ≡ some item) × P item
unfolding pick_previous
pick_previous-some [] k h all = absurd (omega arith)
pick_previous-some {P} (x ∷ xs) k h all =
    let i = previous_index (length (x ∷ xs)) (index_of (x ∷ xs) k (some 0)) in
    let (item, e) =
      get_elem?-lt (x ∷ xs) i (previous_index-lt (length xs) _ (index_of-lt x xs k)) in
    (item, e, All-get_elem? P (x ∷ xs) i item all e)
