-- ===== src/Admin/Pages/Cover.antt =====
-- The pages cover the list, and the clamped page is one of them.
use kiosk_screen.Prelude.{
  ℕ, zero, suc, ◌+◌, ◌-◌, ◌*◌, ◌≤◌, ◌<◌, String, ◌≡◌, refl, ap, ◌⊎◌, inl, inr, false, Option, some,
  List, [], ◌∷◌, ◌++◌, arith, ◌==◌, Option-cases, length, take, drop, All, length-take, length-drop,
  decimal,
}
use native.Mathlib.Nat.{mul-le-mul, le_refl}
use kiosk_screen.Admin.Pages.{
  ClientPageSize, ten, twenty, fifty, hundred, all_rows, rows_of, slice_page, ceil_div, page_count,
  clamp_page_index, written_page_size, read_page_size, write_page_size,
}

module _ {ℓ} {A : Type ℓ} where
  take-add : (m n : ℕ) (xs : List A) → take (m + n) xs ≡ take m xs ++ take n (drop m xs)
  take-add zero n xs = ap (λ k. take k xs) (omega arith)
  take-add (suc m) n [] = let e : suc m + n ≡ suc (m + n) = omega arith in rw e (take_nil n)
    where
      take_nil : (k : ℕ) → [] ≡ take {A = A} k []
      take_nil zero = refl
      take_nil (suc k) = refl
  take-add (suc m) n (x ∷ xs) =
      let e : suc m + n ≡ suc (m + n) = omega arith in rw e (ap (◌∷◌ x) (take-add m n xs))

  take_all : (n : ℕ) (xs : List A) → length xs ≤ n → take n xs ≡ xs
  take_all zero [] h = refl
  take_all (suc n) [] h = refl
  take_all zero (x ∷ xs) h = absurd (omega (arith, h))
  take_all (suc n) (x ∷ xs) h = ap (◌∷◌ x) (take_all n xs (omega (arith, h)))

  -- The first n pages, one after the other.
  abbrev pub pages : List A → ClientPageSize → ℕ → List A
  pages items size zero = []
  pages items size (suc n) = pages items size n ++ slice_page items n size

abbrev IsPaged : ClientPageSize → ℕ → ℕ → Type 0
IsPaged page_size size total =
    let n = page_count total page_size in
    (total ≤ n * size) × ((total ≡ 0) ⊎ (((n - 1) * size < total) × (0 < n)))

ceil_div-IsPaged :
    (page_size : ClientPageSize) (size total : ℕ)
    → rows_of page_size ≡ some size
    → let n = ceil_div total size in
      (total ≤ n * size) × ((total ≡ 0) ⊎ (((n - 1) * size < total) × (0 < n)))
ceil_div-IsPaged ten size total h = let e : size ≡ 10 = ground arith in rw e (ground arith)
ceil_div-IsPaged twenty size total h = let e : size ≡ 20 = ground arith in rw e (ground arith)
ceil_div-IsPaged fifty size total h = let e : size ≡ 50 = ground arith in rw e (ground arith)
ceil_div-IsPaged hundred size total h = let e : size ≡ 100 = ground arith in rw e (ground arith)
ceil_div-IsPaged all_rows size total h = absurd (ground arith)

page_count-IsPaged :
    (page_size : ClientPageSize) (size total : ℕ)
    → rows_of page_size ≡ some size
    → IsPaged page_size size total
unfolding page_count
page_count-IsPaged page_size size total h =
    ground (arith, h, ceil_div-IsPaged page_size size total h)

rows_of_pos : (page_size : ClientPageSize) (size : ℕ) → rows_of page_size ≡ some size → 0 < size
rows_of_pos ten size h = ground arith
rows_of_pos twenty size h = ground arith
rows_of_pos fifty size h = ground arith
rows_of_pos hundred size h = ground arith
rows_of_pos all_rows size h = absurd (ground arith)

clamp_page_index-lt :
    (j total : ℕ) (page_size : ClientPageSize)
    → 0 < page_count total page_size
    → clamp_page_index j total page_size ≤ page_count total page_size - 1
unfolding clamp_page_index
clamp_page_index-lt j total page_size h = ground (arith, h)

clamped-starts :
    (j total : ℕ) (page_size : ClientPageSize) (size : ℕ)
    → 0 < total
    → rows_of page_size ≡ some size
    → clamp_page_index j total page_size * size < total
clamped-starts j total page_size size h e =
    let paged = page_count-IsPaged page_size size total e in
    elim paged.1 [
      | inl nothing ↦ absurd (omega (arith, h, nothing))
      | inr (last, some_page) ↦
          let below = clamp_page_index-lt j total page_size some_page in
          omega (arith, last, mul-le-mul below (le_refl size))
    ]

module _ {ℓ} {A : Type ℓ} where
  slice_page_lem :
      (items : List A) (n : ℕ) (page_size : ClientPageSize) (size : ℕ)
      → rows_of page_size ≡ some size
      → slice_page items n page_size ≡ take size (drop (n * size) items)
  unfolding slice_page
  slice_page_lem [] n page_size size h = rw (slice_page, h) (nothing (n * size) size)
    where
      nothing : (m k : ℕ) → [] ≡ take {A = A} k (drop {A = A} m [])
      nothing zero zero = refl
      nothing zero (suc k) = refl
      nothing (suc m) zero = refl
      nothing (suc m) (suc k) = refl
  slice_page_lem (x ∷ xs) n page_size size h =
      let e : (suc (length xs) == 0) ≡ false = ground arith in rw (slice_page, h, e) refl

  pages-take :
      (items : List A) (page_size : ClientPageSize) (size n : ℕ)
      → rows_of page_size ≡ some size
      → pages items page_size n ≡ take (n * size) items
  pages-take items page_size size zero h = let e : 0 * size ≡ 0 = omega arith in rw e refl
  pages-take items page_size size (suc n) h =
      let e : suc n * size ≡ n * size + size = ground arith in
      rw
        (
          e,
          take-add (n * size) size items,
          slice_page_lem items n page_size size h,
          pages-take items page_size size n h,
        )
        refl

  sized_cover :
      (items : List A) (page_size : ClientPageSize) (size : ℕ)
      → rows_of page_size ≡ some size
      → pages items page_size (page_count (length items) page_size) ≡ items
  sized_cover items page_size size h =
      rw (pages-take items page_size size (page_count (length items) page_size) h)
        (take_all _ items (page_count-IsPaged page_size size (length items) h).0)

  one_page : (items : List A) → pages items all_rows (page_count (length items) all_rows) ≡ items
  unfolding page_count slice_page
  one_page [] = refl
  one_page (x ∷ xs) =
      let e : (suc (length xs) == 0) ≡ false = ground arith in rw (page_count, e) refl

  -- The pages of a list, as many as there are, one after the other are the list, whatever the page
  -- size.
  pub pages_cover :
      (items : List A) (page_size : ClientPageSize)
      → pages items page_size (page_count (length items) page_size) ≡ items
  pages_cover items ten = sized_cover items ten 10 refl
  pages_cover items twenty = sized_cover items twenty 20 refl
  pages_cover items fifty = sized_cover items fifty 50 refl
  pages_cover items hundred = sized_cover items hundred 100 refl
  pages_cover items all_rows = one_page items

  -- Of a list that is not empty, the page at a clamped index is not empty.
  pub clamped_page :
      (items : List A) (j : ℕ) (page_size : ClientPageSize)
      → 0 < length items
      → 0 < length (slice_page items (clamp_page_index j (length items) page_size) page_size)
  unfolding slice_page
  clamped_page items j page_size h = elim (Option-cases (rows_of page_size)) [
    | inl e ↦ rw (slice_page, e) h
    | inr (size, e) ↦
        let n = length items in
        let index = clamp_page_index j n page_size in
        let fits : index * size < n = clamped-starts j n page_size size h e in
        rw
          (
            slice_page_lem items index page_size size e,
            length-take size (drop (index * size) items),
            length-drop (index * size) items,
          )
          (omega (arith, fits, rows_of_pos page_size size e))
  ]

-- The page size that is written is the one that is read again, in a browser that has a storage and
-- reads the numerals of 10, 20, 50 and 100 as these numbers.
pub read_page_size-write_page_size :
    (number : String → Option ℕ)
    → All (λ n. number (decimal n) ≡ some n) (10 ∷ 20 ∷ 50 ∷ 100 ∷ [])
    → (size : ClientPageSize) (old : Option String)
    → read_page_size number (write_page_size size (some old)) ≡ size
unfolding read_page_size write_page_size written_page_size decimal
read_page_size-write_page_size number h ten old = rw (h.0) refl
read_page_size-write_page_size number h twenty old = rw (h.1.0) refl
read_page_size-write_page_size number h fifty old = rw (h.1.1.0) refl
read_page_size-write_page_size number h hundred old = rw (h.1.1.1.0) refl
read_page_size-write_page_size number h all_rows old = refl
