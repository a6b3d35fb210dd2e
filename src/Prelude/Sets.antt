-- ===== src/Prelude/Sets.antt =====
-- `Set<string>`: the members in insertion order, each once.
use Prim.Native.String.{String}
use mathlib.Core.Path.{◌≡◌, refl}
use mathlib.Core.Bool.{Bool, true, false, not, ◌&&◌, ◌||◌}
use mathlib.Core.List.{List, [], ◌∷◌, ◌++◌}
use native.Mathlib.Omega.{arith}
use text.Mathlib.TextEquality.{eq_iff}
use kiosk_screen.Prelude.Tests.{str_eq, if◌then◌else◌}
use kiosk_screen.Prelude.Lists.{filter}

abbrev pub JsSet : Type 0
JsSet = List String

abbrev pub set_has : JsSet → String → Bool
set_has [] k = false
set_has (j ∷ s) k = str_eq j k || set_has s k

abbrev pub set_add : JsSet → String → JsSet
set_add s k = if set_has s k then s else s ++ k ∷ []

abbrev pub set_delete : JsSet → String → JsSet
set_delete s k = filter (λ j. not (str_eq j k)) s

pub set_has-append : (s t : JsSet) (k : String) → set_has (s ++ t) k ≡ (set_has s k || set_has t k)
set_has-append [] t k = refl
set_has-append (j ∷ s) t k = ground (arith, set_has-append s t k)

pub set_has-set_add :
    (s : JsSet) (k j : String) → set_has (set_add s k) j ≡ (str_eq k j || set_has s j)
set_has-set_add s k j = ground (arith, set_has-append s (k ∷ []) j, eq_iff k j, set_has_same s k j)
  where
    set_has_same : (t : JsSet) (a b : String) → set_has t a ≡ true → a ≡ b → set_has t b ≡ true
    set_has_same t a b h e = ground arith

pub set_has-set_delete :
    (s : JsSet) (k j : String) → set_has (set_delete s k) j ≡ (not (str_eq k j) && set_has s j)
set_has-set_delete [] k j = ground arith
set_has-set_delete (i ∷ s) k j =
    ground (arith, eq_iff k j, eq_iff i k, eq_iff i j, set_has-set_delete s k j)
