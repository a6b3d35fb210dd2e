-- ===== src/Prelude/Trim.antt =====
-- `trim` on texts.
use Prim.Native.Char.{code}
use Prim.Native.String.{String, [], ◌∷◌}
use mathlib.Core.Path.{◌≡◌, refl}
use native.Mathlib.Omega.{arith}
use mathlib.Core.Bool.{Bool, true, false, not, ◌&&◌}
use kiosk_screen.Prelude.Tests.{if◌then◌else◌, if_both, if_each}
use kiosk_screen.Prelude.Chars.{is_space}

abbrev pub has_chars : String → Bool
has_chars [] = false
has_chars (c ∷ s) = true

unfoldable pub trim_start : String → String
trim_start [] = []
trim_start (c ∷ s) = let rest = trim_start s in if is_space (code c) then rest else c ∷ s

unfoldable pub trim_end : String → String
trim_end [] = []
trim_end (c ∷ s) =
    let rest = trim_end s in if is_space (code c) && not (has_chars rest) then [] else c ∷ rest

-- `s.trim()`
unfoldable pub trim : String → String
unfolding trim_start trim_end
trim s = trim_end (trim_start s)

-- No white space comes first.
abbrev leads : String → Bool
leads [] = true
leads (c ∷ s) = not (is_space (code c))

trim_start-leads : (s : String) → leads (trim_start s) ≡ true
unfolding trim_start
trim_start-leads [] = refl
trim_start-leads (c ∷ s) =
    if_each (λ t. leads t ≡ true) (is_space (code c)) (λ space. trim_start-leads s)
      (λ text. rw text refl)

trim_start_same : (s : String) → leads s ≡ true → trim_start s ≡ s
unfolding trim_start
trim_start_same [] h = refl
trim_start_same (c ∷ s) h =
    if_each (λ t. t ≡ c ∷ s) (is_space (code c)) (λ space. absurd (ground (arith, h, space)))
      (λ text. refl)

trim_end-leads : (s : String) → leads s ≡ true → leads (trim_end s) ≡ true
unfolding trim_end
trim_end-leads [] h = refl
trim_end-leads (c ∷ s) h =
    if_both (λ t. leads t ≡ true) (is_space (code c) && not (has_chars (trim_end s))) refl h

trim_end_twice : (s : String) → trim_end (trim_end s) ≡ trim_end s
unfolding trim_end
trim_end_twice [] = refl
trim_end_twice (c ∷ s) =
    if_each (λ t. trim_end t ≡ t) (is_space (code c) && not (has_chars (trim_end s))) (λ gone. refl)
      (λ kept. rw (trim_end_twice s, kept) refl)

-- A text that was trimmed stays as it is when it is trimmed again.
pub trim_twice : (s : String) → trim (trim s) ≡ trim s
unfolding trim
trim_twice s =
    rw
      (trim_start_same (trim_end (trim_start s))
        (trim_end-leads (trim_start s) (trim_start-leads s)))
      (trim_end_twice (trim_start s))

trim_run : (trim " a b \n" ≡ "a b") × (trim "  " ≡ "")
unfolding trim
trim_run = (refl, refl)
