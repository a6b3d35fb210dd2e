-- ===== src/Prelude/Templates.antt =====
-- Template strings: `${n}`, `${b}` and their concatenation.
use Prim.Native.Nat.{ℕ, zero, suc, ◌/◌, ◌%◌}
use Prim.Native.String.{String}
use Prim.Native.String
use mathlib.Core.Bool.{Bool, true, false}
use mathlib.Core.Option.{Option, none, some}
use mathlib.Core.List.{List, [], ◌∷◌}
use kiosk_screen.Prelude.Tests.{ltb, ◌==◌, if◌then◌else◌}

abbrev pub text_append : String → String → String
text_append s t = String.◌++◌ s t

digit : ℕ → String
digit d =
    if d == 0
    then "0"
    else if d == 1
    then "1"
    else if d == 2
    then "2"
    else if d == 3
    then "3"
    else if d == 4
    then "4"
    else if d == 5
    then "5"
    else if d == 6
    then "6"
    else if d == 7
    then "7"
    else if d == 8
    then "8"
    else "9"

-- The fuel is above the number, which has fewer digits than that.
decimal_from : ℕ → ℕ → String
unfolding digit
decimal_from zero n = ""
decimal_from (suc fuel) n =
    let rest = decimal_from fuel (n / 10) in
    if ltb n 10 then digit n else text_append rest (digit (n % 10))

unfoldable pub decimal : ℕ → String
unfolding decimal_from
decimal n = decimal_from (suc n) n

abbrev pub bool_text : Bool → String
bool_text true = "true"
bool_text false = "false"

abbrev pub opt_nat_text : Option ℕ → String
opt_nat_text none = "null"
opt_nat_text (some n) = decimal n

-- The parts of a template with ":" between them.
abbrev pub join_colon : List String → String
join_colon [] = ""
join_colon (s ∷ []) = s
join_colon (s ∷ t ∷ rest) = text_append s (text_append ":" (join_colon (t ∷ rest)))
