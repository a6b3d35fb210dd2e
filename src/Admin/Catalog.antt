-- ===== src/Admin/Catalog.antt =====
-- What the facades of the contents and of the ads do to their lists before the server answers:
-- `removeMany` and `reorder` of frontend/src/app/features/content/content.facade.ts and
-- frontend/src/app/features/ads/ads.facade.ts, over any type of item with an id and an order.
pub mod Order
pub mod Lookup
use kiosk_screen.Prelude.{
  ℕ, suc, ◌+◌, String, ◌≡◌, Bool, not, Option, none, some, List, [], ◌∷◌, ◌++◌, if◌then◌else◌,
  str_eq, is_some, length, filter, JsMap, map_get, map_set, set_has,
}

-- What the list code uses of an item: `item.id`, `item.displayOrder`,
-- `{ ...item, displayOrder: n }` and `{ ...item, isActive: b }`.
pub record Listed {ℓ} (A : Type ℓ) : Type ℓ where
  pub id : A → String
  pub display_order : A → ℕ
  pub with_order : ℕ → A → A
  pub is_active : A → Bool
  pub with_active : Bool → A → A
  pub id-with_order : (n : ℕ) (x : A) → id (with_order n x) ≡ id x
  pub display_order-with_order : (n : ℕ) (x : A) → display_order (with_order n x) ≡ n
  pub with_active_back : (b : Bool) (x : A) → with_active (is_active x) (with_active b x) ≡ x
  pub id-with_active : (b : Bool) (x : A) → id (with_active b x) ≡ id x

module _ {ℓ} {A : Type ℓ} ⦃l : Listed A⦄ where
  open l use {id, with_order}

  abbrev pub ids_of : List A → List String
  ids_of [] = []
  ids_of (x ∷ xs) = id x ∷ ids_of xs

  -- `items.filter((item) => !idSet.has(item.id))`
  abbrev pub without : List String → List A → List A
  without ids = filter (λ x. not (set_has ids (id x)))

  -- `new Map(items.map((item) => [item.id, item]))`, added to `m`
  abbrev pub index_into : JsMap A → List A → JsMap A
  index_into m [] = m
  index_into m (x ∷ xs) = index_into (map_set m (id x) x) xs

  -- The items of the map that the ids name, numbered by the places of the ids from `idx` on.
  abbrev pub placed : JsMap A → ℕ → List String → List A
  placed m idx [] = []
  placed m idx (k ∷ ks) =
      let rest = placed m (suc idx) ks in
      elim (map_get m k) [ none ↦ rest | some x ↦ with_order (idx + 1) x ∷ rest ]

  -- The items behind them, numbered on from `n`.
  abbrev pub appended : ℕ → List A → List A
  appended n [] = []
  appended n (x ∷ xs) = with_order (n + 1) x ∷ appended (suc n) xs

  -- `new Map(items.map((item) => [item.id, item.isActive]))`, added to `m`
  abbrev pub flags_into : JsMap Bool → List A → JsMap Bool
  flags_into m [] = m
  flags_into m (x ∷ xs) = flags_into (map_set m (id x) (l.is_active x)) xs

  -- The items whose ids have a flag in the map get that flag.
  abbrev pub with_flags : JsMap Bool → List A → List A
  with_flags m [] = []
  with_flags m (x ∷ xs) =
      (elim (map_get m (id x)) [ none ↦ x | some b ↦ l.with_active b x ]) ∷ with_flags m xs

  -- The items whose ids have a flag in the map all get the flag `b`.
  abbrev pub with_flag : JsMap Bool → Bool → List A → List A
  with_flag m b [] = []
  with_flag m b (x ∷ xs) =
      (if is_some (map_get m (id x)) then l.with_active b x else x) ∷ with_flag m b xs

  unfoldable pub reordered : List String → List A → List A
  reordered ids items =
      let optimistic = placed (index_into [] items) 0 ids in
      optimistic ++ appended (length optimistic) (without ids items)

  -- `items.find((item) => item.id === k)`
  abbrev pub item_with : String → List A → Option A
  item_with k [] = none
  item_with k (x ∷ xs) = if str_eq (id x) k then some x else item_with k xs

  -- The orders count on from `n`.
  abbrev pub IsNumbered : ℕ → List A → Type 0
  IsNumbered n [] = Unit
  IsNumbered n (x ∷ xs) = (l.display_order x ≡ suc n) × IsNumbered (suc n) xs
