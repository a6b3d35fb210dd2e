-- ===== src/Prelude/Chars.antt =====
-- Texts read character by character: blank texts, `includes` and `startsWith`, and the regular
-- expressions `/word/i` for a word of ASCII letters.
use Prim.Native.Nat.{ℕ, ◌+◌}
use Prim.Native.Char.{code}
use Prim.Native.String.{String, [], ◌∷◌}
use mathlib.Core.Path.{◌≡◌, refl}
use mathlib.Core.Bool.{Bool, true, false, ◌&&◌, ◌||◌}
use mathlib.Core.List.{List, [] as nil, ◌∷◌ as ◌◂◌}
use kiosk_screen.Prelude.Tests.{leb, ◌==◌, if◌then◌else◌}

unfoldable pub codes : String → List ℕ
codes [] = nil
codes (c ∷ s) = code c ◂ codes s

-- What `trim` takes away: the white space and the line ends of the language.
abbrev pub is_space : ℕ → Bool
is_space c =
    (leb 9 c && leb c 13)
    || c == 32
    || c == 160
    || c == 5760
    || (leb 8192 c && leb c 8202)
    || c == 8232
    || c == 8233
    || c == 8239
    || c == 8287
    || c == 12288
    || c == 65279

abbrev pub all_spaces : List ℕ → Bool
all_spaces nil = true
all_spaces (c ◂ cs) = is_space c && all_spaces cs

-- `!s.trim()`
unfoldable pub is_blank : String → Bool
unfolding codes
is_blank s = all_spaces (codes s)

abbrev pub ascii_lower : ℕ → ℕ
ascii_lower c = if leb 65 c && leb c 90 then c + 32 else c

abbrev pub lowered : List ℕ → List ℕ
lowered nil = nil
lowered (c ◂ cs) = ascii_lower c ◂ lowered cs

abbrev pub begins_with : List ℕ → List ℕ → Bool
begins_with cs nil = true
begins_with nil (w ◂ ws) = false
begins_with (c ◂ cs) (w ◂ ws) = c == w && begins_with cs ws

abbrev pub has_infix : List ℕ → List ℕ → Bool
has_infix nil ws = begins_with nil ws
has_infix (c ◂ cs) ws = begins_with (c ◂ cs) ws || has_infix cs ws

-- `s.startsWith(word)`
unfoldable pub starts_with : String → String → Bool
unfolding codes
starts_with s word = begins_with (codes s) (codes word)

-- `s.includes(word)`
unfoldable pub includes : String → String → Bool
unfolding codes
includes s word = has_infix (codes s) (codes word)

-- `/word/i.test(s)`: without the flag `u` only ASCII letters match letters of another case.
unfoldable pub includes_any_case : String → String → Bool
unfolding codes
includes_any_case s word = has_infix (lowered (codes s)) (lowered (codes word))

chars_run :
    (is_blank " \n" ≡ true)
    × (is_blank " a" ≡ false)
    × (starts_with "upload_failed" "upload" ≡ true)
    × (includes "/api/auth/login?x" "/api/auth/login" ≡ true)
    × (includes_any_case "Bad TOKEN given" "token" ≡ true)
    × (includes_any_case "tok en" "token" ≡ false)
unfolding is_blank starts_with includes includes_any_case codes
chars_run = (refl, refl, refl, refl, refl, refl)
