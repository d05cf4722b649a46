-- ===== src/Base/Maps.antt =====
-- A JavaScript `Map` with string keys: an association list in insertion order.
use Prim.Native.String.{String}
use mathlib.Core.Path.{◌≡◌, refl}
use mathlib.Core.Option.{Option, none, some}
use mathlib.Core.List.{List, [], ◌∷◌}
use native.Mathlib.Omega.{arith}
use text.Mathlib.Text.{◌==◌ as str_eq}
use text.Mathlib.TextEquality.{eq_iff}
use arbiter_backend.Base.Tests.{if◌then◌else◌}

abbrev pub Assoc {ℓ} : Type ℓ → Type ℓ
Assoc Value = List (String × Value)

module _ {κ} {Value : Type κ} where
  -- `Map.prototype.get`
  unfoldable pub lookup : String → Assoc Value → Option Value
  lookup wanted [] = none
  lookup wanted ((name, held) ∷ others) =
      if str_eq name wanted then some held else lookup wanted others

  -- `Map.prototype.set`: an existing key keeps its place.
  unfoldable pub insert : String → Value → Assoc Value → Assoc Value
  insert written new [] = (written, new) ∷ []
  insert written new ((name, held) ∷ others) =
      if str_eq name written
      then (written, new) ∷ others
      else (name, held) ∷ insert written new others

  -- `Map.prototype.delete`
  unfoldable pub remove : String → Assoc Value → Assoc Value
  remove gone [] = []
  remove gone ((name, held) ∷ others) =
      let left = remove gone others in if str_eq name gone then left else (name, held) ∷ left

  pub lookup-insert :
      (written wanted : String) (new : Value) (entries : Assoc Value)
      → lookup wanted (insert written new entries)
        ≡ (if str_eq written wanted then some new else lookup wanted entries)
  unfolding insert lookup
  lookup-insert written wanted new [] = refl
  lookup-insert written wanted new ((name, held) ∷ others) = ground (
    arith,
    lookup-insert written wanted new others,
    eq_iff name written,
    eq_iff name wanted,
    eq_iff written wanted,
  )

  pub lookup-remove :
      (gone wanted : String) (entries : Assoc Value)
      → lookup wanted (remove gone entries)
        ≡ (if str_eq gone wanted then none else lookup wanted entries)
  unfolding remove lookup
  lookup-remove gone wanted [] = ground arith
  lookup-remove gone wanted ((name, held) ∷ others) = ground (
    arith,
    lookup-remove gone wanted others,
    eq_iff name gone,
    eq_iff name wanted,
    eq_iff gone wanted,
  )

pub ruleset map_laws = (lookup-insert, lookup-remove)
