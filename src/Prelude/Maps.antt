-- ===== src/Prelude/Maps.antt =====
-- `Map<string, V>`: the entries in insertion order. `set` of a key that is there keeps its place.
use Prim.Native.String.{String}
use mathlib.Core.Path.{◌≡◌, refl}
use mathlib.Core.List.{List, [], ◌∷◌}
use mathlib.Core.Option.{Option, none, some}
use native.Mathlib.Omega.{arith}
use text.Mathlib.TextEquality.{eq_iff}
use kiosk_screen.Prelude.Tests.{str_eq, if◌then◌else◌}

abbrev pub JsMap {ℓ} : Type ℓ → Type ℓ
JsMap V = List (String × V)

module _ {ℓ} {V : Type ℓ} where
  abbrev pub map_get : JsMap V → String → Option V
  map_get [] k = none
  map_get ((j, v) ∷ m) k = if str_eq j k then some v else map_get m k

  abbrev pub map_set : JsMap V → String → V → JsMap V
  map_set [] k v = (k, v) ∷ []
  map_set ((j, w) ∷ m) k v = if str_eq j k then (j, v) ∷ m else (j, w) ∷ map_set m k v

  abbrev pub map_delete : JsMap V → String → JsMap V
  map_delete [] k = []
  map_delete ((j, w) ∷ m) k =
      let rest = map_delete m k in if str_eq j k then rest else (j, w) ∷ rest

  pub map_get-map_set :
      (m : JsMap V) (k j : String) (v : V)
      → map_get (map_set m k v) j ≡ (if str_eq k j then some v else map_get m j)
  map_get-map_set [] k j v = refl
  map_get-map_set ((i, w) ∷ m) k j v =
      ground (arith, eq_iff k j, eq_iff i k, eq_iff i j, map_get-map_set m k j v)

  pub map_get-map_delete :
      (m : JsMap V) (k j : String)
      → map_get (map_delete m k) j ≡ (if str_eq k j then none else map_get m j)
  map_get-map_delete [] k j = ground arith
  map_get-map_delete ((i, w) ∷ m) k j =
      ground (arith, eq_iff k j, eq_iff i k, eq_iff i j, map_get-map_delete m k j)

  -- No key has two entries.
  abbrev pub HasDistinctKeys : JsMap V → Type ℓ
  HasDistinctKeys [] = Unit
  HasDistinctKeys ((k, v) ∷ m) = (map_get m k ≡ none) × HasDistinctKeys m

  pub map_set-HasDistinctKeys :
      (m : JsMap V) (k : String) (v : V) → HasDistinctKeys m → HasDistinctKeys (map_set m k v)
  map_set-HasDistinctKeys [] k v h = (refl, tt)
  map_set-HasDistinctKeys ((j, w) ∷ m) k v h =
      ground
        (arith, eq_iff j k, eq_iff k j, map_get-map_set m k j v, map_set-HasDistinctKeys m k v h.1)
