-- ===== src/Prelude/Bags.antt =====
-- Lists of ids up to order, and the ids that a list of items holds.
use Prim.Native.Nat.{ℕ, ◌+◌, ◌≤◌}
use Prim.Native.String.{String}
use mathlib.Core.Path.{◌≡◌, refl}
use mathlib.Core.Bool.{Bool, true, false, not}
use mathlib.Core.List.{List, [], ◌∷◌, ◌++◌}
use mathlib.Core.Quot
use mathlib.Core.Quot.{Quot}
use native.Mathlib.Omega.{arith}
use text.Mathlib.TextEquality.{eq_iff}
use kiosk_screen.Prelude.Tests.{ltb, str_eq, if◌then◌else◌}
use kiosk_screen.Prelude.Lists.{All, filter}
use kiosk_screen.Prelude.Sets.{set_has}

abbrev pub count : String → List String → ℕ
count k [] = 0
count k (j ∷ js) = (if str_eq j k then 1 else 0) + count k js

-- Two lists hold the same ids, as often.
abbrev pub SameIds : List String → List String → Type 0
SameIds xs ys = (k : String) → count k xs ≡ count k ys

-- The order of the ids is forgotten.
abbrev pub IdBag : Type 0
IdBag = Quot SameIds

abbrev pub bag_of : List String → IdBag
bag_of = Quot.mk

pub bag_of_same : (xs ys : List String) → SameIds xs ys → bag_of xs ≡ bag_of ys
bag_of_same xs ys h = Quot.sound h

pub count-append : (k : String) (xs ys : List String) → count k (xs ++ ys) ≡ count k xs + count k ys
count-append k [] ys = omega arith
count-append k (x ∷ xs) ys = omega (arith, count-append k xs ys)

-- No id stands in the list twice.
abbrev pub IsDistinct : List String → Type 0
IsDistinct [] = Unit
IsDistinct (k ∷ ks) = (set_has ks k ≡ false) × IsDistinct ks

pub count_absent : (k : String) (xs : List String) → set_has xs k ≡ false → count k xs ≡ 0
count_absent k [] h = refl
count_absent k (x ∷ xs) h = ground (arith, count_absent k xs)

-- A list of distinct ids holds each at most once.
pub count_distinct :
    (k : String) (xs : List String) → IsDistinct xs → count k xs ≡ (if set_has xs k then 1 else 0)
count_distinct k [] h = refl
count_distinct k (x ∷ xs) h = ground (arith, eq_iff x k, count_distinct k xs h.1, count_absent k xs)

pub count-filter :
    (p : String → Bool) (k : String) (xs : List String)
    → count k (filter p xs) ≡ (if p k then count k xs else 0)
count-filter p k [] = ground arith
count-filter p k (x ∷ xs) = ground (arith, eq_iff x k, count-filter p k xs)

pub set_has-count : (k : String) (xs : List String) → set_has xs k ≡ ltb 0 (count k xs)
set_has-count k [] = refl
set_has-count k (x ∷ xs) = ground (arith, set_has-count k xs)

IsDistinct-of_counts : (xs : List String) → ((k : String) → count k xs ≤ 1) → IsDistinct xs
IsDistinct-of_counts [] h = tt
IsDistinct-of_counts (x ∷ xs) h = (
  ground (arith, eq_iff x x, h x, set_has-count x xs),
  IsDistinct-of_counts xs (λ k. ground (arith, h k)),
)

pub SameIds-IsDistinct : (xs ys : List String) → SameIds xs ys → IsDistinct ys → IsDistinct xs
SameIds-IsDistinct xs ys h d =
    IsDistinct-of_counts xs λ k. ground (arith, h k, count_distinct k ys d)

pub set_has-SameIds :
    (xs ys : List String) → SameIds xs ys → (k : String) → set_has xs k ≡ set_has ys k
set_has-SameIds xs ys h k = ground (arith, h k, set_has-count k xs, set_has-count k ys)

pub All-set_has : (xs ys : List String) → SameIds xs ys → All (λ k. set_has ys k ≡ true) xs
All-set_has xs ys h = known xs (λ k e. ground (arith, set_has-SameIds xs ys h k, e))
  where
    known :
        (zs : List String)
        → ((k : String) → set_has zs k ≡ true → set_has ys k ≡ true)
        → All (λ k. set_has ys k ≡ true) zs
    known [] f = tt
    known (z ∷ zs) f = (f z (ground (arith, eq_iff z z)), known zs (λ k e. f k (ground (arith, e))))

-- A list that is split by a test holds the same ids.
pub count-split :
    (p : String → Bool) (k : String) (xs : List String)
    → count k (filter (λ j. not (p j)) xs ++ filter p xs) ≡ count k xs
count-split p k xs = ground (
  arith,
  count-append k (filter (λ j. not (p j)) xs) (filter p xs),
  count-filter p k xs,
  count-filter (λ j. not (p j)) k xs,
)
