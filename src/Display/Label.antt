-- ===== src/Display/Label.antt =====
-- frontend/src/app/display/display-label.service.ts: the label of the display, in a signal and in
-- `localStorage`, which is none where there is none.
use kiosk_screen.Prelude.{
  String, ◌≡◌, refl, false, not, Option, none, some, if◌then◌else◌, if_each, non_empty,
  Option-cases, arith, ◌⊎◌, inl, inr, trim, trim_twice,
}

pub record DisplayLabel : Type 0 where
  pub label : Option String
  pub stored : Option (Option String)

abbrev pub shown_label : String → Option String
shown_label text = if non_empty (trim text) then some (trim text) else none

unfoldable pub read_stored_label : Option (Option String) → Option String
read_stored_label none = none
read_stored_label (some none) = none
read_stored_label (some (some text)) = shown_label text

abbrev pub initial_label : Option (Option String) → DisplayLabel
unfolding read_stored_label
initial_label stored = record { label = read_stored_label stored; stored = stored }

abbrev pub keep_label : String → Option (Option String) → Option (Option String)
keep_label text none = none
keep_label text (some old) = some (some text)

unfoldable pub set_label : String → DisplayLabel → DisplayLabel
set_label text d =
    let clean = trim text in
    if not (non_empty clean)
    then d
    else record { label = some clean; stored = keep_label clean d.stored }

-- The label that is shown is the one that the storage, if there is one, would bring back.
abbrev pub IsStoredLabel : DisplayLabel → Type 0
IsStoredLabel d = (d.stored ≡ none) ⊎ (read_stored_label d.stored ≡ d.label)

shown_again :
    (text : String)
    → not (non_empty (trim text)) ≡ false
    → shown_label (trim text) ≡ some (trim text)
shown_again text named =
    rw (trim_twice text, shown_label)
      (if_each (λ (l : Option String). l ≡ some (trim text)) (non_empty (trim text)) (λ full. refl)
        (λ bare. absurd (ground (arith, named, bare))))

kept_label :
    (text : String) (d : DisplayLabel)
    → not (non_empty (trim text)) ≡ false
    → IsStoredLabel (record { label = some (trim text); stored = keep_label (trim text) d.stored })
unfolding read_stored_label
kept_label text d named = elim (Option-cases d.stored) [
  | inl e ↦ inl (rw e refl)
  | inr (old, e) ↦ inr (rw e (shown_again text named))
]

-- A display whose label is the stored one keeps it so when the label is set to any text, blank or
-- with spaces around it.
set_label-IsStoredLabel :
    (text : String) (d : DisplayLabel) → IsStoredLabel d → IsStoredLabel (set_label text d)
unfolding set_label read_stored_label
set_label-IsStoredLabel text d h =
    if_each IsStoredLabel (not (non_empty (trim text))) (λ blank. h)
      λ named. kept_label text d named
