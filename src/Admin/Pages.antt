-- ===== src/Admin/Pages.antt =====
-- Paging in the browser: frontend/src/app/shared/util/client-pagination.ts and
-- client-pagination-storage.ts. Page indices are not negative in the code.
pub mod Cover
mod Tests
use kiosk_screen.Prelude.{
  ℕ, ◌+◌, ◌-◌, ◌*◌, ◌/◌, min, String, Option, none, some, List, ◌==◌, if◌then◌else◌, str_eq, length,
  take, drop, decimal, text_append,
}

pub data ClientPageSize : Type 0 where
  ten twenty fifty hundred all_rows : ClientPageSize

abbrev pub default_client_page_size : ClientPageSize
default_client_page_size = twenty

-- `none` is 'all'.
abbrev pub rows_of : ClientPageSize → Option ℕ
rows_of ten = some 10
rows_of twenty = some 20
rows_of fifty = some 50
rows_of hundred = some 100
rows_of all_rows = none

module _ {ℓ} {A : Type ℓ} where
  unfoldable pub slice_page : List A → ℕ → ClientPageSize → List A
  slice_page items page_index page_size = elim (rows_of page_size) [
    | none ↦ items
    | some size ↦ if length items == 0 then items else take size (drop (page_index * size) items)
  ]

-- `Math.ceil(total / size)`
abbrev pub ceil_div : ℕ → ℕ → ℕ
ceil_div total size = (total + (size - 1)) / size

unfoldable pub page_count : ℕ → ClientPageSize → ℕ
page_count total page_size =
    if total == 0
    then 0
    else elim (rows_of page_size) [ none ↦ 1 | some size ↦ ceil_div total size ]

unfoldable pub clamp_page_index : ℕ → ℕ → ClientPageSize → ℕ
unfolding page_count
clamp_page_index page_index total page_size =
    let pages = page_count total page_size in if pages == 0 then 0 else min page_index (pages - 1)

pub record PaginationRange : Type 0 where
  pub start : ℕ
  pub end : ℕ
  pub total : ℕ
  pub label : String

abbrev pub range_label : ℕ → ℕ → ℕ → String
range_label start end total =
    text_append (decimal start)
      (text_append "–" (text_append (decimal end) (text_append " de " (decimal total))))

unfoldable pub format_pagination_range : ℕ → ClientPageSize → ℕ → PaginationRange
format_pagination_range page_index page_size total =
    if total == 0
    then record { start = 0; end = 0; total = 0; label = "0–0 de 0" }
    else elim (rows_of page_size) [
      | none ↦ record { start = 1; end = total; total = total; label = range_label 1 total total }
      | some size ↦
          let start = page_index * size + 1 in
          let end = min (start + size - 1) total in
          record { start = start; end = end; total = total; label = range_label start end total }
    ]

unfoldable pub page_size_label : ClientPageSize → String
page_size_label size = elim (rows_of size) [ none ↦ "Todas" | some n ↦ decimal n ]

-- What is written under the key of the page size. Every page size of the type is a valid one.
unfoldable pub written_page_size : ClientPageSize → String
written_page_size size = elim (rows_of size) [ none ↦ "all" | some n ↦ decimal n ]

abbrev pub size_of_number : ℕ → ClientPageSize
size_of_number n =
    if n == 10
    then ten
    else if n == 20
    then twenty
    else if n == 50
    then fifty
    else if n == 100
    then hundred
    else default_client_page_size

-- `Number(text)` is the browser's; `none` stands for what is no natural number.
module _ (number : String → Option ℕ) where
  abbrev pub size_of_text : String → ClientPageSize
  size_of_text raw =
      if str_eq raw "all"
      then all_rows
      else elim (number raw) [ none ↦ default_client_page_size | some n ↦ size_of_number n ]

  -- `storage` is none where there is no `localStorage`, `some none` where nothing is stored.
  unfoldable pub read_page_size : Option (Option String) → ClientPageSize
  read_page_size none = default_client_page_size
  read_page_size (some none) = default_client_page_size
  read_page_size (some (some raw)) = size_of_text raw

unfoldable pub write_page_size : ClientPageSize → Option (Option String) → Option (Option String)
unfolding written_page_size
write_page_size size none = none
write_page_size size (some old) = some (some (written_page_size size))
