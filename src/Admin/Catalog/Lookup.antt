-- ===== src/Admin/Catalog/Lookup.antt =====
-- The lists as maps from ids to items: what the optimistic changes do to them.
use kiosk_screen.Prelude.{
  String, ◌≡◌, refl, ◌⊎◌, inl, inr, Bool, false, none, some, List, [], ◌∷◌, arith, eq_iff,
  if◌then◌else◌, str_eq, if_each, filter, All, All-mono, JsMap, map_get, map_set, map_get-map_set,
  set_has, IsDistinct,
}
use kiosk_screen.Admin.Catalog.{
  Listed, ids_of, without, item_with, with_flags, with_flag, flags_into,
}

module _ {ℓ} {A : Type ℓ} ⦃l : Listed A⦄ where
  open l use {id, with_order, with_active, is_active}

  -- Removing the ids removes their entries.
  pub item_with-without :
      (ids : List String) (k : String) (xs : List A)
      → item_with k (without ids xs) ≡ (if set_has ids k then none else item_with k xs)
  item_with-without ids k [] = ground arith
  item_with-without ids k (x ∷ xs) = ground (arith, eq_iff (id x) k, item_with-without ids k xs)

  absent_item : (k : String) (xs : List A) → set_has (ids_of xs) k ≡ false → item_with k xs ≡ none
  absent_item k [] h = refl
  absent_item k (x ∷ xs) h = ground (arith, absent_item k xs)

  absent-filter :
      (p : A → Bool) (k : String) (xs : List A)
      → set_has (ids_of xs) k ≡ false
      → set_has (ids_of (filter p xs)) k ≡ false
  absent-filter p k [] h = refl
  absent-filter p k (x ∷ xs) h = ground (arith, absent-filter p k xs)

  pub filter-IsDistinct :
      (p : A → Bool) (xs : List A) → IsDistinct (ids_of xs) → IsDistinct (ids_of (filter p xs))
  filter-IsDistinct p [] h = tt
  filter-IsDistinct p (x ∷ xs) h =
      ground (arith, absent-filter p (id x) xs, filter-IsDistinct p xs h.1)

  -- What the list `ys` has under the id of x, if anything, is x.
  abbrev Matches : List A → A → Type ℓ
  Matches ys x = (item_with (id x) ys ≡ none) ⊎ (item_with (id x) ys ≡ some x)

  absent-All :
      (k : String) (xs : List A)
      → set_has (ids_of xs) k ≡ false
      → All (λ x. str_eq k (id x) ≡ false) xs
  absent-All k [] h = tt
  absent-All k (x ∷ xs) h =
      (ground (arith, eq_iff (id x) k, eq_iff k (id x)), absent-All k xs (ground arith))

  Matches-behind :
      (y : A) (ys xs : List A)
      → All (λ x. str_eq (id y) (id x) ≡ false) xs
      → All (Matches ys) xs
      → All (Matches (y ∷ ys)) xs
  Matches-behind y ys [] h m = tt
  Matches-behind y ys (x ∷ xs) h m = (rw (item_with, h.0) m.0, Matches-behind y ys xs h.1 m.1)

  filter-Matches :
      (p : A → Bool) (xs : List A) → IsDistinct (ids_of xs) → All (Matches (filter p xs)) xs
  filter-Matches p [] h = tt
  filter-Matches p (x ∷ xs) h =
      if_each (λ ys. All (Matches ys) (x ∷ xs)) (p x)
        (λ kept. (
          inr (ground (arith, eq_iff (id x) (id x))),
          Matches-behind x (filter p xs) xs (absent-All (id x) xs h.0) (filter-Matches p xs h.1),
        ))
        (λ dropped. (
          inl (absent_item (id x) (filter p xs) (absent-filter p (id x) xs h.0)),
          filter-Matches p xs h.1,
        ))

  map_get-flags_into :
      (k : String) (xs : List A) (m : JsMap Bool)
      → IsDistinct (ids_of xs)
      → map_get (flags_into m xs) k
        ≡ elim (item_with k xs) [ none ↦ map_get m k | some x ↦ some (is_active x) ]
  map_get-flags_into k [] m h = refl
  map_get-flags_into k (x ∷ xs) m h = ground (
    arith,
    eq_iff (id x) k,
    map_get-flags_into k xs (map_set m (id x) (is_active x)) h.1,
    map_get-map_set m (id x) k (is_active x),
    absent_item k xs,
  )

  -- Restoring the flags that a list holds undoes a change of these flags.
  with_flags-with_flag :
      (m : JsMap Bool) (b : Bool) (xs : List A)
      → All (λ x. (map_get m (id x) ≡ none) ⊎ (map_get m (id x) ≡ some (is_active x))) xs
      → with_flags m (with_flag m b xs) ≡ xs
  with_flags-with_flag m b [] h = refl
  with_flags-with_flag m b (x ∷ xs) h = elim h.0 [
    | inl e ↦ ground (arith, e, with_flags-with_flag m b xs h.1)
    | inr e ↦
        ground
          (arith, e, l.id-with_active b x, l.with_active_back b x, with_flags-with_flag m b xs h.1)
  ]

  -- A list of distinct ids whose flags are changed for some of its items is as before once the
  -- flags that these items had are back.
  pub flags_restored :
      (p : A → Bool) (b : Bool) (xs : List A)
      → IsDistinct (ids_of xs)
      → let m = flags_into [] (filter p xs) in with_flags m (with_flag m b xs) ≡ xs
  flags_restored p b xs h = with_flags-with_flag (flags_into [] (filter p xs)) b xs (
      All-mono _ _ xs
        (λ x m.
          ground (arith, map_get-flags_into (id x) (filter p xs) [] (filter-IsDistinct p xs h), m))
        (filter-Matches p xs h))
