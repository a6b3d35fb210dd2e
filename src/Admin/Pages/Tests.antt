-- ===== src/Admin/Pages/Tests.antt =====
-- Pages of small lists, and a page size that is stored.
use kiosk_screen.Prelude.{
  ℕ, String, ◌≡◌, refl, Option, none, some, List, [], ◌∷◌, if◌then◌else◌, str_eq, decimal,
}
use kiosk_screen.Admin.Pages.{
  ten, fifty, all_rows, slice_page, page_count, clamp_page_index, format_pagination_range,
  page_size_label, read_page_size, write_page_size,
}
use kiosk_screen.Admin.Pages.Cover.{pages, pages_cover, read_page_size-write_page_size}

abbrev twelve : List ℕ
twelve = 1 ∷ 2 ∷ 3 ∷ 4 ∷ 5 ∷ 6 ∷ 7 ∷ 8 ∷ 9 ∷ 10 ∷ 11 ∷ 12 ∷ []

pages_run :
    (slice_page twelve 1 ten ≡ 11 ∷ 12 ∷ [])
    × (page_count 12 ten ≡ 2)
    × (clamp_page_index 7 12 ten ≡ 1)
    × ((format_pagination_range 1 ten 12).label ≡ "11–12 de 12")
    × (page_size_label all_rows ≡ "Todas")
unfolding slice_page page_count clamp_page_index format_pagination_range page_size_label decimal
pages_run = (refl, refl, refl, refl, refl)

pages_cover_example : pages twelve ten 2 ≡ twelve
unfolding page_count
pages_cover_example = pages_cover twelve ten

-- Numerals as a browser reads them, as far as the pages go.
abbrev numeral : String → Option ℕ
numeral s =
    if str_eq s "10"
    then some 10
    else if str_eq s "20"
    then some 20
    else if str_eq s "50"
    then some 50
    else some 100

read_page_size-write_page_size_example :
    read_page_size numeral (write_page_size fifty (some none)) ≡ fifty
unfolding decimal
read_page_size-write_page_size_example =
    read_page_size-write_page_size numeral (refl, (refl, (refl, (refl, tt)))) fifty none
