-- ===== src/Display/Controller/Ads.antt =====
-- The ad band: what it shows, and that each ad has its turn.
use kiosk_screen.Prelude.{
  ℕ, zero, suc, ◌+◌, ◌%◌, ◌<◌, min, max, ◌≡◌, refl, sym, ap, ◌∙◌, false, List, [], ◌∷◌, ◌++◌, arith,
  length, get_elem?, take, drop, head?, length-append, length-take, length-drop,
}
use native.Mathlib.Nat.{add-mod_right, mod-eq_of_lt, mod-lt, mod-add-mod, add-zero, mod-mod}
use kiosk_screen.Display.Controller.State.{
  current_ad, visible_ads, rotated_ads, Controller, DisplayAdLike, is_nil, arm_ad_timer_only,
}
use kiosk_screen.Display.Controller.Advance.{advance_ad}

take-append-of_le :
    {A : Type 0} (n : ℕ) (xs : List A) → length (take (min n (length xs)) xs) ≡ min n (length xs)
take-append-of_le n xs = omega (arith, length-take {0} (min n (length xs)) xs)

length-rotated_ads :
    {A : Type 0} (list : List A) (index : ℕ) → length (rotated_ads list index) ≡ length list
length-rotated_ads list index =
    let start = (index % length list + length list) % length list in
    omega (
      arith,
      length-append {0} (drop start list) (take start list),
      length-drop {0} start list,
      length-take {0} start list,
    )

length-band :
    {A : Type 0} (count index : ℕ) (list : List A)
    → length (take (min count (length (rotated_ads list index))) (rotated_ads list index))
      ≡ min count (length list)
length-band count index list =
    omega (arith, take-append-of_le count (rotated_ads list index), length-rotated_ads list index)

-- The band shows as many ads as are configured, at least one, and no more than there are.
pub length-visible_ads :
    (s : Controller) → length (visible_ads s) ≡ min (max 1 s.inline_ad_count) (length s.ads)
unfolding visible_ads
length-visible_ads s = ground (arith, length-band (max 1 s.inline_ad_count) s.ad_index s.ads)

head-take : {A : Type 0} (n : ℕ) (xs : List A) → 0 < n → head? (take n xs) ≡ head? xs
head-take zero xs h = absurd (omega arith)
head-take (suc n) [] h = refl
head-take (suc n) (x ∷ xs) h = refl

head-drop-append :
    {A : Type 0} (n : ℕ) (xs ys : List A) → n < length xs → head? (drop n xs ++ ys) ≡ get_elem? xs n
head-drop-append zero [] ys h = absurd (omega arith)
head-drop-append zero (x ∷ xs) ys h = refl
head-drop-append (suc n) [] ys h = absurd (omega arith)
head-drop-append (suc n) (x ∷ xs) ys h = head-drop-append n xs ys (omega arith)

wrap-mod : (i n : ℕ) → 0 < n → (i % n + n) % n ≡ i % n
wrap-mod i n h = add-mod_right (i % n) n ∙ mod-eq_of_lt (mod-lt i h)

head-band :
    {A : Type 0} (count index : ℕ) (list : List A)
    → 0 < count
    → 0 < length list
    → head? (take (min count (length (rotated_ads list index))) (rotated_ads list index))
      ≡ get_elem? list (index % length list)
head-band count index list some_count some_ad =
    let start = (index % length list + length list) % length list in
    let n = min count (length (rotated_ads list index)) in
    head-take n (rotated_ads list index) (omega (arith, length-rotated_ads list index))
    ∙ head-drop-append start list (take start list)
        (mod-lt (index % length list + length list) some_ad)
    ∙ ap (get_elem? list) (wrap-mod index (length list) some_ad)

-- The first ad of the band is the current ad.
pub head-visible_ads : (s : Controller) → head? (visible_ads s) ≡ current_ad s
unfolding visible_ads current_ad
head-visible_ads s = ground (arith, head-band (max 1 s.inline_ad_count) s.ad_index s.ads)

-- `n` times the ad timer.
abbrev pub ad_turns : ℕ → Controller → Controller
ad_turns zero s = s
ad_turns (suc n) s = advance_ad (ad_turns n s)

advance_ad-index :
    (s : Controller)
    → is_nil s.ads ≡ false
    → ((advance_ad s).ad_index ≡ (s.ad_index + 1) % length s.ads) × ((advance_ad s).ads ≡ s.ads)
unfolding advance_ad arm_ad_timer_only
advance_ad-index s h = ground arith

ad_turns-index :
    (n : ℕ) (s : Controller)
    → is_nil s.ads ≡ false
    → ((ad_turns n s).ad_index % length s.ads ≡ (s.ad_index + n) % length s.ads)
      × ((ad_turns n s).ads ≡ s.ads)
ad_turns-index zero s h = (rw add-zero, refl)
ad_turns-index (suc n) s h =
    let t = ad_turns n s in
    let len = length s.ads in
    let (at, same) = ad_turns-index n s h in
    let (index, kept) = advance_ad-index t (ap is_nil same ∙ h) in
    (
      ap (λ (k : ℕ). k % len)
            (index ∙ ap (λ (l : List DisplayAdLike). (t.ad_index + 1) % length l) same)
          ∙ mod-mod (t.ad_index + 1) len
          ∙ sym (mod-add-mod t.ad_index len 1)
          ∙ ap (λ (k : ℕ). (k + 1) % len) at
          ∙ mod-add-mod (s.ad_index + n) len 1
          ∙ ap (λ (k : ℕ). k % len) (omega arith),
      kept ∙ same,
    )

current_ad-some :
    (s : Controller)
    → is_nil s.ads ≡ false
    → current_ad s ≡ get_elem? s.ads (s.ad_index % length s.ads)
unfolding current_ad
current_ad-some s h = ground arith

-- Where there are ads, after n turns the current ad is the one n places further on, modulo their
-- number.
pub current_ad-ad_turns :
    (n : ℕ) (s : Controller)
    → is_nil s.ads ≡ false
    → current_ad (ad_turns n s) ≡ get_elem? s.ads ((s.ad_index + n) % length s.ads)
current_ad-ad_turns n s h =
    let (at, same) = ad_turns-index n s h in
    current_ad-some (ad_turns n s) (ap is_nil same ∙ h)
    ∙ ap (λ (l : List DisplayAdLike). get_elem? l ((ad_turns n s).ad_index % length l)) same
    ∙ ap (get_elem? s.ads) at
