-- ===== src/Display/Cadence/Changes.antt =====
-- What a poll changes: the ids whose cadence is new or other than before.
use kiosk_screen.Prelude.{
  ℕ, String, ◌≡◌, refl, sym, ap, ◌∙◌, inl, inr, Bool, false, Option, none, some, List, [], ◌∷◌,
  arith, eq_refl, str_eq, Bool-cases, str_eq→eq, JsMap, map_get, map_set, set_has,
}
use kiosk_screen.Prelude.{HasDistinctKeys, map_set-HasDistinctKeys}
use kiosk_screen.Display.Item.{DisplayContentItem}
use kiosk_screen.Display.Cadence.{
  cadence_of, filler_queue, snapshot_from, build_cadence_snapshot, is_changed, changed_ids,
  cadence_changes,
}

snapshot_from-HasDistinctKeys :
    (m : JsMap ℕ) (items : List DisplayContentItem)
    → HasDistinctKeys m
    → HasDistinctKeys (snapshot_from m items)
unfolding snapshot_from
snapshot_from-HasDistinctKeys m [] h = h
snapshot_from-HasDistinctKeys m (x ∷ xs) h =
    snapshot_from-HasDistinctKeys (map_set m x.id (cadence_of x)) xs
      (map_set-HasDistinctKeys m x.id (cadence_of x) h)

pub build_cadence_snapshot-HasDistinctKeys :
    (items : List DisplayContentItem) → HasDistinctKeys (build_cadence_snapshot items)
unfolding build_cadence_snapshot
build_cadence_snapshot-HasDistinctKeys items =
    snapshot_from-HasDistinctKeys [] (filler_queue items) tt

abbrev pub differs : Option ℕ → Option ℕ → Bool
differs before none = false
differs before (some n) = is_changed before n

set_has-changed_ids :
    (previous m : JsMap ℕ) (k : String)
    → HasDistinctKeys m
    → set_has (changed_ids previous m) k ≡ differs (map_get previous k) (map_get m k)
unfolding changed_ids
set_has-changed_ids previous [] k h = refl
set_has-changed_ids previous ((j, n) ∷ m) k h = elim (Bool-cases (str_eq j k)) [
  | inl e ↦
      let same : map_get previous j ≡ map_get previous k =
        ap (map_get previous) (str_eq→eq j k e) in
      let gone : map_get m k ≡ none = ap (map_get m) (sym (str_eq→eq j k e)) ∙ h.0 in
      ground (arith, set_has-changed_ids previous m k h.1)
  | inr e ↦ ground (arith, set_has-changed_ids previous m k h.1)
]

-- An id is reported exactly when the new snapshot holds it with a cadence that the earlier snapshot
-- did not hold for it.
pub set_has-cadence_changes :
    (previous : JsMap ℕ) (items : List DisplayContentItem) (k : String)
    → set_has (cadence_changes previous items) k
      ≡ differs (map_get previous k) (map_get (build_cadence_snapshot items) k)
unfolding cadence_changes
set_has-cadence_changes previous items k =
    set_has-changed_ids previous (build_cadence_snapshot items) k
      (build_cadence_snapshot-HasDistinctKeys items)

differs_same : (o : Option ℕ) → differs o o ≡ false
differs_same none = refl
differs_same (some n) = ground arith

eq-nil_of_set_has : (ids : List String) → ((k : String) → set_has ids k ≡ false) → ids ≡ []
eq-nil_of_set_has [] h = refl
eq-nil_of_set_has (x ∷ xs) h = absurd (ground (arith, h x, eq_refl x))

-- A poll that brings the same items resets no counter.
pub cadence_changes_same :
    (items : List DisplayContentItem) → cadence_changes (build_cadence_snapshot items) items ≡ []
cadence_changes_same items = eq-nil_of_set_has _ λ k.
    set_has-cadence_changes (build_cadence_snapshot items) items k
    ∙ differs_same (map_get (build_cadence_snapshot items) k)
