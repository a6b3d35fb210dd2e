-- ===== src/Prelude/Lists.antt =====
-- Lists measured and indexed by native numbers, with Boolean tests as the source writes them.
use Prim.Native.Nat.{ℕ, zero, suc, ◌+◌, ◌-◌, ◌≤◌, ◌<◌, min}
use mathlib.Core.Path.{◌≡◌, refl, ap}
use mathlib.Core.Logic.{◌⊎◌, inl, inr}
use mathlib.Core.Bool.{not, Bool, true, false, ◌&&◌, ◌||◌}
use mathlib.Core.List.{List, [], ◌∷◌, ◌++◌}
use mathlib.Core.Option.{Option, none, some}
use native.Mathlib.Omega.{arith}
use kiosk_screen.Prelude.Tests.{if◌then◌else◌, is_some}

abbrev shift : Option ℕ → Option ℕ
shift none = none
shift (some i) = some (suc i)

module _ {ℓ} {A : Type ℓ} where
  abbrev pub length : List A → ℕ
  length [] = 0
  length (x ∷ xs) = suc (length xs)

  abbrev pub get_elem? : List A → ℕ → Option A
  get_elem? [] i = none
  get_elem? (x ∷ xs) zero = some x
  get_elem? (x ∷ xs) (suc i) = get_elem? xs i

  abbrev pub take : ℕ → List A → List A
  take zero xs = []
  take (suc n) [] = []
  take (suc n) (x ∷ xs) = x ∷ take n xs

  abbrev pub drop : ℕ → List A → List A
  drop zero xs = xs
  drop (suc n) [] = []
  drop (suc n) (x ∷ xs) = drop n xs

  abbrev pub head? : List A → Option A
  head? [] = none
  head? (x ∷ xs) = some x

  -- `xs.filter(p)`
  abbrev pub filter : (A → Bool) → List A → List A
  filter p [] = []
  filter p (x ∷ xs) = let rest = filter p xs in if p x then x ∷ rest else rest

  -- `xs.some(p)`
  abbrev pub any : (A → Bool) → List A → Bool
  any p [] = false
  any p (x ∷ xs) = p x || any p xs

  -- `xs.find(p) ?? null`
  abbrev pub find : (A → Bool) → List A → Option A
  find p [] = none
  find p (x ∷ xs) = if p x then some x else find p xs

  -- `xs.findIndex(p)`, where `none` stands for -1
  abbrev pub find_index : (A → Bool) → List A → Option ℕ
  find_index p [] = none
  find_index p (x ∷ xs) = if p x then some 0 else shift (find_index p xs)

module _ {ℓ} {A : Type ℓ} where
  abbrev pub remove_at : ℕ → List A → List A
  remove_at i [] = []
  remove_at zero (x ∷ xs) = xs
  remove_at (suc i) (x ∷ xs) = x ∷ remove_at i xs

  abbrev pub replace_at : ℕ → A → List A → List A
  replace_at i y [] = []
  replace_at zero y (x ∷ xs) = y ∷ xs
  replace_at (suc i) y (x ∷ xs) = x ∷ replace_at i y xs

module _ {ℓ κ} {A : Type ℓ} (P : A → Type κ) where
  abbrev pub All : List A → Type κ
  All [] = Unit
  All (x ∷ xs) = P x × All xs

module _ {ℓ} {A : Type ℓ} where
  pub length-append : (xs ys : List A) → length (xs ++ ys) ≡ length xs + length ys
  length-append [] ys = omega arith
  length-append (x ∷ xs) ys = omega (arith, length-append xs ys)

  pub length-take : (n : ℕ) (xs : List A) → length (take n xs) ≡ min n (length xs)
  length-take zero xs = omega arith
  length-take (suc n) [] = omega arith
  length-take (suc n) (x ∷ xs) = omega (arith, length-take n xs)

  pub length-drop : (n : ℕ) (xs : List A) → length (drop n xs) ≡ length xs - n
  length-drop zero xs = omega arith
  length-drop (suc n) [] = omega arith
  length-drop (suc n) (x ∷ xs) = omega (arith, length-drop n xs)

  pub take-append-drop : (n : ℕ) (xs : List A) → take n xs ++ drop n xs ≡ xs
  take-append-drop zero xs = refl
  take-append-drop (suc n) [] = refl
  take-append-drop (suc n) (x ∷ xs) = ap (◌∷◌ x) (take-append-drop n xs)

  pub get_elem?-lt : (xs : List A) (i : ℕ) → i < length xs → (x : A) × (get_elem? xs i ≡ some x)
  get_elem?-lt [] i h = elim h [ ]
  get_elem?-lt (x ∷ xs) zero h = (x, refl)
  get_elem?-lt (x ∷ xs) (suc i) h = get_elem?-lt xs i (omega arith)

  pub length-filter-le : (p : A → Bool) (xs : List A) → length (filter p xs) ≤ length xs
  length-filter-le p [] = omega arith
  length-filter-le p (x ∷ xs) = ground (arith, length-filter-le p xs)

  pub All-filter : (p : A → Bool) (xs : List A) → All (λ x. p x ≡ true) (filter p xs)
  All-filter p [] = tt
  All-filter p (x ∷ xs) = ground (arith, All-filter p xs)

  pub any-filter : (p : A → Bool) (xs : List A) → any p xs ≡ is_some (head? (filter p xs))
  any-filter p [] = refl
  any-filter p (x ∷ xs) = ground (arith, any-filter p xs)

  pub find_index-lt :
      (p : A → Bool) (xs : List A) (i : ℕ) → find_index p xs ≡ some i → i < length xs
  find_index-lt p [] i h = absurd (ground arith)
  find_index-lt p (x ∷ xs) zero h = omega arith
  find_index-lt p (x ∷ xs) (suc i) h = ground (arith, find_index-lt p xs i)

  -- The index that is found is that of the item that is found.
  pub get_elem?-find_index :
      (p : A → Bool) (xs : List A) (i : ℕ) → find_index p xs ≡ some i → get_elem? xs i ≡ find p xs
  get_elem?-find_index p [] i h = absurd (ground arith)
  get_elem?-find_index p (x ∷ xs) zero h = ground arith
  get_elem?-find_index p (x ∷ xs) (suc i) h = ground (arith, get_elem?-find_index p xs i)

module _ {ℓ κ} {A : Type ℓ} (P : A → Type κ) where
  pub All-get_elem? : (xs : List A) (i : ℕ) (x : A) → All P xs → get_elem? xs i ≡ some x → P x
  All-get_elem? [] i x h e = absurd (ground arith)
  All-get_elem? (y ∷ xs) zero x h e = ground arith
  All-get_elem? (y ∷ xs) (suc i) x h e = All-get_elem? xs i x h.1 e

  pub All-append : (xs ys : List A) → All P xs → All P ys → All P (xs ++ ys)
  All-append [] ys hx hy = hy
  All-append (x ∷ xs) ys hx hy = (hx.0, All-append xs ys hx.1 hy)

  pub All-take : (n : ℕ) (xs : List A) → All P xs → All P (take n xs)
  All-take zero xs h = tt
  All-take (suc n) [] h = tt
  All-take (suc n) (x ∷ xs) h = (h.0, All-take n xs h.1)

  pub All-of_filter : (p : A → Bool) (xs : List A) → All P xs → All P (filter p xs)
  All-of_filter p [] h = tt
  All-of_filter p (x ∷ xs) h = ground (arith, All-of_filter p xs h.1)

module _ {ℓ} {A : Type ℓ} where
  pub List-cases : (xs : List A) → (xs ≡ []) ⊎ ((x : A) × (rest : List A) × (xs ≡ x ∷ rest))
  List-cases [] = inl refl
  List-cases (x ∷ xs) = inr (x, xs, refl)

  -- A filter by two tests leaves out what the second one holds of.
  pub length-filter-split :
      (p q : A → Bool) (xs : List A)
      → length (filter (λ x. p x && not (q x)) xs) + length (filter q (filter p xs))
        ≡ length (filter p xs)
  length-filter-split p q [] = omega arith
  length-filter-split p q (x ∷ xs) = ground (arith, length-filter-split p q xs)

pub All-mono {ℓ κ μ} :
    {A : Type ℓ} (P : A → Type κ) (Q : A → Type μ) (xs : List A)
    → ((x : A) → P x → Q x)
    → All P xs
    → All Q xs
All-mono P Q [] f h = tt
All-mono P Q (x ∷ xs) f h = (f x h.0, All-mono P Q xs f h.1)

module _ {ℓ} {A : Type ℓ} (p : A → Bool) where
  pub any-append : (xs ys : List A) → any p (xs ++ ys) ≡ (any p xs || any p ys)
  any-append [] ys = refl
  any-append (x ∷ xs) ys = ground (arith, any-append xs ys)

  -- An item that fails the test can go without a change to `some`.
  pub any-remove_at :
      (i : ℕ) (xs : List A) (x : A)
      → get_elem? xs i ≡ some x
      → p x ≡ false
      → any p (remove_at i xs) ≡ any p xs
  any-remove_at i [] x e h = refl
  any-remove_at zero (y ∷ xs) x e h = ground arith
  any-remove_at (suc i) (y ∷ xs) x e h = ground (arith, any-remove_at i xs x e h)

  pub any-replace_at :
      (i : ℕ) (y : A) (xs : List A) (x : A)
      → get_elem? xs i ≡ some x
      → p y ≡ p x
      → any p (replace_at i y xs) ≡ any p xs
  any-replace_at i y [] x e h = refl
  any-replace_at zero y (z ∷ xs) x e h = ground arith
  any-replace_at (suc i) y (z ∷ xs) x e h = ground (arith, any-replace_at i y xs x e h)

module _ {ℓ} {A : Type ℓ} where
  pub get_elem?-last : (xs : List A) (x : A) → get_elem? (xs ++ x ∷ []) (length xs) ≡ some x
  get_elem?-last [] x = refl
  get_elem?-last (y ∷ xs) x = get_elem?-last xs x

  pub remove_at-last : (xs : List A) (x : A) → remove_at (length xs) (xs ++ x ∷ []) ≡ xs
  remove_at-last [] x = refl
  remove_at-last (y ∷ xs) x = ap (◌∷◌ y) (remove_at-last xs x)

  pub replace_at-last :
      (xs : List A) (x y : A) → replace_at (length xs) y (xs ++ x ∷ []) ≡ xs ++ y ∷ []
  replace_at-last [] x y = refl
  replace_at-last (z ∷ xs) x y = ap (◌∷◌ z) (replace_at-last xs x y)
