-- ===== src/Admin/Dashboard/Routes.antt =====
-- Messages as lists of UTF-16 units: `resolveReadinessRoute`, `normalizeSeverity` and
-- `truncateLabel`.
use kiosk_screen.Prelude.{
  ℕ, ◌+◌, ◌≤◌, String, Bool, true, false, not, ◌&&◌, ◌||◌, List, [], ◌∷◌, ◌++◌, arith, leb, ◌==◌,
  if◌then◌else◌, leb→le, if_each, length, take, drop, any, length-append, length-take, codes,
  has_infix, begins_with,
}

abbrev pub Message : Type 0
Message = List ℕ

-- `message.toLowerCase()`, exact as far as ASCII letters come out of it: they also come from the
-- Kelvin sign and from I with a dot.
abbrev pub lowercase : Message → Message
lowercase [] = []
lowercase (c ∷ cs) =
    let rest = lowercase cs in
    if leb 65 c && leb c 90
    then (c + 32) ∷ rest
    else if c == 304
    then 105 ∷ 775 ∷ rest
    else if c == 8490
    then 107 ∷ rest
    else c ∷ rest

-- `\w`
abbrev pub is_word_char : ℕ → Bool
is_word_char c =
    (leb 48 c && leb c 57) || (leb 65 c && leb c 90) || c == 95 || (leb 97 c && leb c 122)

-- No word goes on here.
abbrev pub ends_here : Message → Bool
ends_here [] = true
ends_here (c ∷ cs) = not (is_word_char c)

-- `ad(s)?\b` at the start of the text
abbrev pub ad_word : Message → Bool
ad_word cs =
    (begins_with cs (97 ∷ 100 ∷ []) && ends_here (drop 2 cs))
    || (begins_with cs (97 ∷ 100 ∷ 115 ∷ []) && ends_here (drop 3 cs))

-- `/\bad(s)?\b/`, behind a unit that is part of a word or not
abbrev pub has_ad_word : Bool → Message → Bool
has_ad_word in_word [] = false
has_ad_word in_word (c ∷ cs) = (not in_word && ad_word (c ∷ cs)) || has_ad_word (is_word_char c) cs

abbrev pub mentions : Message → List String → Bool
unfolding codes
mentions lower words = any (λ word. has_infix lower (codes word)) words

unfoldable pub resolve_readiness_route : Message → String
resolve_readiness_route message =
    let lower = lowercase message in
    if mentions lower ("user" ∷ "rol" ∷ "usuario" ∷ [])
    then "/admin/users"
    else if mentions lower ("content" ∷ "contenido" ∷ [])
    then "/admin/content"
    else if mentions lower ("anuncio" ∷ []) || has_ad_word false lower
    then "/admin/ads"
    else if mentions lower ("iframe" ∷ "embedded" ∷ [])
    then "/admin/iframes"
    else if mentions lower ("configuration" ∷ "display" ∷ "pantalla" ∷ [])
    then "/admin/configuration"
    else if mentions lower ("event" ∷ "evento" ∷ [])
    then "/admin/event"
    else "/admin"

-- `truncateLabel(message)`, with `…` as its unit
unfoldable pub truncate_label : Message → Message
truncate_label message = if leb (length message) 40 then message else take 39 message ++ 8230 ∷ []

-- A label is short enough for its button, whatever the message.
pub length-truncate_label : (message : Message) → length (truncate_label message) ≤ 40
unfolding truncate_label
length-truncate_label message =
    if_each (λ (label : Message). length label ≤ 40) (leb (length message) 40)
      (λ short. leb→le _ _ short)
      (λ long. omega (arith, length-append (take 39 message) (8230 ∷ []), length-take 39 message))
