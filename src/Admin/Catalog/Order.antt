-- ===== src/Admin/Catalog/Order.antt =====
-- The optimistic `reorder` only rearranges and renumbers.
use mathlib.Core.Path.{subst}
use kiosk_screen.Prelude.{
  ℕ, suc, ◌+◌, String, ◌≡◌, refl, ap, inl, inr, true, false, not, none, some, List, [], ◌∷◌, ◌++◌,
  arith, Bool, eq_iff, Option-cases, is_some, or_else, length, filter, All, All-mono, JsMap,
  map_get, map_set, map_get-map_set, set_has, bag_of, bag_of_same, count-append, IsDistinct,
  count_distinct, count-filter,
}
use kiosk_screen.Admin.Catalog.{
  Listed, ids_of, without, index_into, placed, appended, reordered, item_with, IsNumbered,
}

filter-All : (p : String → Bool) (ks : List String) → All (λ k. p k ≡ true) ks → filter p ks ≡ ks
filter-All p [] h = refl
filter-All p (k ∷ ks) h = ground (arith, filter-All p ks h.1)

module _ {ℓ} {A : Type ℓ} ⦃l : Listed A⦄ where
  open l use {id, with_order}

  item_with_absent :
      (k : String) (xs : List A) → set_has (ids_of xs) k ≡ false → item_with k xs ≡ none
  item_with_absent k [] h = refl
  item_with_absent k (x ∷ xs) h = ground (arith, item_with_absent k xs)

  -- In a list of distinct ids the map of the items holds what the list holds.
  map_get-index_into :
      (k : String) (xs : List A) (m : JsMap A)
      → IsDistinct (ids_of xs)
      → map_get (index_into m xs) k ≡ or_else (item_with k xs) (map_get m k)
  map_get-index_into k [] m h = refl
  map_get-index_into k (x ∷ xs) m h = ground (
    arith,
    eq_iff (id x) k,
    map_get-index_into k xs (map_set m (id x) x) h.1,
    map_get-map_set m (id x) k x,
    item_with_absent k xs,
  )

  is_some-item_with : (k : String) (xs : List A) → is_some (item_with k xs) ≡ set_has (ids_of xs) k
  is_some-item_with k [] = refl
  is_some-item_with k (x ∷ xs) = ground (arith, is_some-item_with k xs)

  id-item_with : (k : String) (xs : List A) (x : A) → item_with k xs ≡ some x → id x ≡ k
  id-item_with k [] x h = absurd (ground arith)
  id-item_with k (y ∷ xs) x h = ground (arith, eq_iff (id y) k, id-item_with k xs x)

  -- Where every id is known to the map, its items are numbered without a gap.
  placed-IsNumbered :
      (m : JsMap A) (n : ℕ) (ks : List String)
      → All (λ k. is_some (map_get m k) ≡ true) ks
      → IsNumbered n (placed m n ks) × (length (placed m n ks) ≡ length ks)
  placed-IsNumbered m n [] h = (tt, refl)
  placed-IsNumbered m n (k ∷ ks) h = elim (Option-cases (map_get m k)) [
    | inl e ↦ absurd (ground (arith, e))
    | inr (x, e) ↦
        let (numbered, long) = placed-IsNumbered m (suc n) ks h.1 in
        rw (IsNumbered, placed, e)
          ((omega (arith, l.display_order-with_order (n + 1) x), numbered), omega (arith, long))
  ]

  appended-IsNumbered : (n : ℕ) (xs : List A) → IsNumbered n (appended n xs)
  appended-IsNumbered n [] = tt
  appended-IsNumbered n (x ∷ xs) =
      (omega (arith, l.display_order-with_order (n + 1) x), appended-IsNumbered (suc n) xs)

  append-IsNumbered :
      (n m : ℕ) (xs ys : List A)
      → IsNumbered n xs
      → IsNumbered m ys
      → m ≡ n + length xs
      → IsNumbered n (xs ++ ys)
  append-IsNumbered n m [] ys hx hy e = subst (λ j. IsNumbered j ys) (omega (arith, e)) hy
  append-IsNumbered n m (x ∷ xs) ys hx hy e =
      (hx.0, append-IsNumbered (suc n) m xs ys hx.1 hy (omega (arith, e)))

  ids_of-append : (xs ys : List A) → ids_of (xs ++ ys) ≡ ids_of xs ++ ids_of ys
  ids_of-append [] ys = refl
  ids_of-append (x ∷ xs) ys = ap (◌∷◌ (id x)) (ids_of-append xs ys)

  ids_of-appended : (n : ℕ) (xs : List A) → ids_of (appended n xs) ≡ ids_of xs
  ids_of-appended n [] = refl
  ids_of-appended n (x ∷ xs) = ground (arith, l.id-with_order (n + 1) x, ids_of-appended (suc n) xs)

  ids_of-without :
      (ks : List String) (xs : List A)
      → ids_of (without ks xs) ≡ filter (λ k. not (set_has ks k)) (ids_of xs)
  ids_of-without ks [] = refl
  ids_of-without ks (x ∷ xs) = ground (arith, ids_of-without ks xs)

  ids_of-placed :
      (xs : List A) (n : ℕ) (ks : List String)
      → IsDistinct (ids_of xs)
      → ids_of (placed (index_into [] xs) n ks) ≡ filter (set_has (ids_of xs)) ks
  ids_of-placed xs n [] h = refl
  ids_of-placed xs n (k ∷ ks) h =
      let same = map_get-index_into k xs [] h in
      let known = is_some-item_with k xs in
      let rest = ids_of-placed xs (suc n) ks h in
      elim (Option-cases (item_with k xs)) [
        | inl e ↦ ground (arith, e, same, known, rest)
        | inr (x, e) ↦
            ground (arith, e, same, known, rest, id-item_with k xs x e, l.id-with_order (n + 1) x)
      ]

  -- In a list of distinct ids, a reorder by ids that all stand in the list puts these first, in the
  -- order that they are given in, and the others after them, in the order that they had.
  pub ids_of-reordered :
      (ks : List String) (xs : List A)
      → IsDistinct (ids_of xs)
      → All (λ k. set_has (ids_of xs) k ≡ true) ks
      → ids_of (reordered ks xs) ≡ ks ++ filter (λ k. not (set_has ks k)) (ids_of xs)
  unfolding reordered
  ids_of-reordered ks xs hx h =
      let first = placed (index_into [] xs) 0 ks in
      rw
        (
          ids_of-append first (appended (length first) (without ks xs)),
          ids_of-appended (length first) (without ks xs),
          ids_of-placed xs 0 ks hx,
          ids_of-without ks xs,
          filter-All (set_has (ids_of xs)) ks h,
        )
        refl

  -- In a list of distinct ids, a reorder by distinct ids keeps the ids as they are up to order,
  -- whether or not the ids name all items, or others too.
  pub bag_of-reordered :
      (ks : List String) (xs : List A)
      → IsDistinct ks
      → IsDistinct (ids_of xs)
      → bag_of (ids_of (reordered ks xs)) ≡ bag_of (ids_of xs)
  unfolding reordered
  bag_of-reordered ks xs hk hx = bag_of_same _ _ λ k.
      let moved = ids_of-placed xs 0 ks hx in
      let rest = ids_of-without ks xs in
      let n = length (placed (index_into [] xs) 0 ks) in
      rw
        (
          ids_of-append (placed (index_into [] xs) 0 ks) (appended n (without ks xs)),
          ids_of-appended n (without ks xs),
          moved,
          rest,
          count-append k (filter (set_has (ids_of xs)) ks)
              (filter (λ j. not (set_has ks j)) (ids_of xs)),
          count-filter (set_has (ids_of xs)) k ks,
          count-filter (λ j. not (set_has ks j)) k (ids_of xs),
          count_distinct k ks hk,
          count_distinct k (ids_of xs) hx,
        )
        (ground arith)

  known-ids :
      (ks : List String) (xs : List A)
      → IsDistinct (ids_of xs)
      → All (λ k. set_has (ids_of xs) k ≡ true) ks
      → All (λ k. is_some (map_get (index_into [] xs) k) ≡ true) ks
  known-ids ks xs hx =
      All-mono _ _ ks
        λ k h. ground (arith, map_get-index_into k xs [] hx, is_some-item_with k xs, h)

  -- In a list of distinct ids, a reorder by ids that all stand in the list numbers the items from
  -- 1 on, in the order in which they stand afterwards.
  pub reordered-IsNumbered :
      (ks : List String) (xs : List A)
      → IsDistinct (ids_of xs)
      → All (λ k. set_has (ids_of xs) k ≡ true) ks
      → IsNumbered 0 (reordered ks xs)
  unfolding reordered
  reordered-IsNumbered ks xs hx h =
      let (numbered, long) = placed-IsNumbered (index_into [] xs) 0 ks (known-ids ks xs hx h) in
      append-IsNumbered 0 _ _ _ numbered (appended-IsNumbered _ (without ks xs)) (omega arith)
