-- ===== src/Display/Fingerprint/Window.antt =====
-- The ads that a payload makes visible.
use kiosk_screen.Prelude.{
  ℕ, zero, suc, ◌+◌, ◌%◌, ◌<◌, max, ◌≡◌, sym, ap, ◌∙◌, List, [], ◌∷◌, arith, leb, if◌then◌else◌,
  length, get_elem?, get_elem?-lt,
}
use native.Mathlib.Nat.{mod-lt}
use kiosk_screen.Display.Item.{DisplayAdItem}
use kiosk_screen.Display.Payloads.{ShowAdsPayload}
use kiosk_screen.Display.Fingerprint.{window_from, visible_window}

get_elem?-window_from :
    (items : List DisplayAdItem) (start index count i : ℕ)
    → 0 < length items
    → i < count
    → get_elem? (window_from items start index count) i
      ≡ get_elem? items ((start + (index + i)) % length items)
unfolding window_from
get_elem?-window_from items start index zero i h lt = absurd (omega arith)
get_elem?-window_from items start index (suc count) zero h lt =
    let (item, e) =
      get_elem?-lt items ((start + index) % length items) (mod-lt (start + index) h) in
    let same : index + 0 ≡ index = omega arith in rw (e, window_from) (rw same (sym e))
get_elem?-window_from items start index (suc count) (suc i) h lt =
    let (item, e) =
      get_elem?-lt items ((start + index) % length items) (mod-lt (start + index) h) in
    let same : index + 1 + i ≡ index + suc i = omega arith in
    rw (e, window_from)
      (get_elem?-window_from items start (index + 1) count i h (omega arith)
        ∙ ap (λ (k : ℕ). get_elem? items ((start + k) % length items)) same)

length-window_from :
    (items : List DisplayAdItem) (start index count : ℕ)
    → length (window_from items start index count) ≡ (if leb 1 (length items) then count else 0)
unfolding window_from
length-window_from items start index zero = ground arith
length-window_from [] start index (suc count) = length-window_from [] start (index + 1) count
length-window_from (x ∷ xs) start index (suc count) =
    let (item, e) =
      get_elem?-lt (x ∷ xs) ((start + index) % length (x ∷ xs))
        (mod-lt (start + index) (omega arith)) in
    rw (e, window_from)
      (ap suc (length-window_from (x ∷ xs) start (index + 1) count) ∙ ground arith)

-- Where there are ads, the window holds as many as configured, at least one, and its i-th ad is the one
-- at position (start + i) modulo their number. Of no ads the window is empty.
pub visible_window_lem :
    (payload : ShowAdsPayload)
    → (length (visible_window payload)
        ≡ (if leb 1 (length payload.items) then max 1 payload.inline_ad_count else 0))
      × ((i : ℕ)
          → 0 < length payload.items
          → i < max 1 payload.inline_ad_count
          → get_elem? (visible_window payload) i
            ≡ get_elem? payload.items ((payload.start_index + i) % length payload.items))
unfolding visible_window
visible_window_lem payload =
    let count = max 1 payload.inline_ad_count in
    (
      length-window_from payload.items payload.start_index 0 count,
      λ i some_ad lt.
          get_elem?-window_from payload.items payload.start_index 0 count i some_ad lt
          ∙ ap
              (λ (k : ℕ).
                get_elem? payload.items ((payload.start_index + k) % length payload.items))
              (omega arith),
    )
