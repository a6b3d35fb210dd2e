-- ===== src/Admin/ContentList/Tests.antt =====
-- Three rows on the page: checking them, and dropping one of them.
use kiosk_screen.Prelude.{
  ℕ, zero, suc, String, ◌≡◌, refl, ◌∙◌, inl, inr, Bool, false, none, some, List, [], ◌∷◌, arith,
  Option-cases, get_elem?, filter, remove_at, bag_of, count,
}
use kiosk_screen.Admin.Catalog.{ids_of, IsNumbered}
use kiosk_screen.Admin.Content.{content_listed}
use kiosk_screen.Admin.Content.Samples.{three, three-IsDistinct}
use kiosk_screen.Admin.Pages.{all_rows}
use kiosk_screen.Admin.ContentList.{ContentList, initial_list, reorder_enabled}
use kiosk_screen.Admin.ContentList.Drop.{
  MovesOne, drop_order, drop_goes_last, on_drop, on_drop_rearranges,
}

-- An array whose item at place i is moved to place j.
abbrev insert_at : ℕ → String → List String → List String
insert_at j k [] = k ∷ []
insert_at zero k (x ∷ xs) = k ∷ x ∷ xs
insert_at (suc j) k (x ∷ xs) = x ∷ insert_at j k xs

abbrev moved : ℕ → ℕ → List String → List String
moved i j ids = elim (get_elem? ids i) [ none ↦ ids | some k ↦ insert_at j k (remove_at i ids) ]

count-insert_at :
    (j : ℕ) (k a : String) (xs : List String) → count a (insert_at j k xs) ≡ count a (k ∷ xs)
count-insert_at j k a [] = refl
count-insert_at zero k a (x ∷ xs) = refl
count-insert_at (suc j) k a (x ∷ xs) = omega (arith, count-insert_at j k a xs)

count-remove_at :
    (i : ℕ) (k a : String) (xs : List String)
    → get_elem? xs i ≡ some k
    → count a (k ∷ remove_at i xs) ≡ count a xs
count-remove_at i k a [] h = absurd (ground arith)
count-remove_at zero k a (x ∷ xs) h = ground arith
count-remove_at (suc i) k a (x ∷ xs) h = omega (arith, count-remove_at i k a xs h)

filter-insert_at :
    (j : ℕ) (k : String) (p : String → Bool) (xs : List String)
    → p k ≡ false
    → filter p (insert_at j k xs) ≡ filter p xs
filter-insert_at j k p [] h = ground arith
filter-insert_at zero k p (x ∷ xs) h = ground arith
filter-insert_at (suc j) k p (x ∷ xs) h = ground (arith, filter-insert_at j k p xs h)

filter-remove_at :
    (i : ℕ) (k : String) (p : String → Bool) (xs : List String)
    → get_elem? xs i ≡ some k
    → p k ≡ false
    → filter p (remove_at i xs) ≡ filter p xs
filter-remove_at i k p [] h e = refl
filter-remove_at zero k p (x ∷ xs) h e = ground arith
filter-remove_at (suc i) k p (x ∷ xs) h e = ground (arith, filter-remove_at i k p xs h e)

moved-MovesOne : MovesOne moved
moved-MovesOne = record {
  same = λ i j ids a. elim (Option-cases (get_elem? ids i)) [
    | inl e ↦ rw (moved, e) refl
    | inr (k, e) ↦
        rw (moved, e)
          (omega (arith, count-insert_at j k a (remove_at i ids), count-remove_at i k a ids e))
  ];
  others = λ i j ids k p at e.
      rw (moved, at) (filter-insert_at j k p (remove_at i ids) e ∙ filter-remove_at i k p ids at e);
}

abbrev page : ContentList
page = record initial_list { facade = three; page_size = all_rows; selection = "a" ∷ "b" ∷ [] }

drop_goes_last_example :
    drop_order moved 0 1 ("a" ∷ "c" ∷ []) ("a" ∷ "b" ∷ "c" ∷ []) ≡ "b" ∷ "a" ∷ "c" ∷ []
drop_goes_last_example =
    drop_goes_last moved moved-MovesOne 0 1 ("a" ∷ "c" ∷ []) ("a" ∷ "b" ∷ "c" ∷ []) "a" refl refl
      (omega arith)

on_drop_rearranges_example :
    let q = on_drop moved 0 2 page in
    (bag_of (ids_of q.facade.items) ≡ bag_of (ids_of page.facade.items))
    × IsNumbered 0 q.facade.items
unfolding reorder_enabled
on_drop_rearranges_example = on_drop_rearranges moved moved-MovesOne 0 2 page refl three-IsDistinct
