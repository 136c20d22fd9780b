-- ===== src/Common/Dict.antt =====
-- Go's `map[string]V` as an association list, in which a key stands at most once when it is built
-- by `insert`.
use outboxexpress.Common.Tests.{if◌then◌else◌}
use Prim.Native.String.{String}
use mathlib.Core.Path.{◌≡◌, refl}
use mathlib.Core.List.{List, [], ◌∷◌}
use mathlib.Core.Option.{Option, none, some}
use native.Mathlib.Omega.{arith}
use text.Mathlib.Text.{◌==◌}
use text.Mathlib.TextEquality.{eq_iff}

module _ {ℓ} {V : Type ℓ} where
  unfoldable pub lookup : String → List (String × V) → Option V
  lookup wanted [] = none
  lookup wanted ((key, value) ∷ rest) = if key == wanted then some value else lookup wanted rest

  unfoldable pub insert : String → V → List (String × V) → List (String × V)
  insert new value [] = (new, value) ∷ []
  insert new value ((key, old) ∷ rest) =
      let kept = insert new value rest in
      if key == new then (new, value) ∷ rest else (key, old) ∷ kept

  pub lookup-insert :
      (new wanted : String) (value : V) (entries : List (String × V))
      → lookup wanted (insert new value entries)
        ≡ (if new == wanted then some value else lookup wanted entries)
  unfolding lookup insert
  lookup-insert new wanted value [] = refl
  lookup-insert new wanted value ((key, old) ∷ rest) =
      let ih = lookup-insert new wanted value rest in
      ground (arith, ih, eq_iff new wanted, eq_iff key new, eq_iff key wanted)

  -- Every key stands once, as in a Go map.
  abbrev pub Distinct : List (String × V) → Type ℓ
  Distinct [] = Unit
  Distinct ((key, value) ∷ rest) = (lookup key rest ≡ none) × Distinct rest
