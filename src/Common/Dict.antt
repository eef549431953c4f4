-- ===== src/Common/Dict.antt =====
-- Go's maps with text keys, as association lists. A loop over a map takes the entries in the
-- order of the list; the theorems hold for every list, so for every order.
use Prim.Native.String.{String}
use mathlib.Core.Path.{◌≡◌}
use mathlib.Core.Option.{Option, none, some}
use mathlib.Core.List.{List, [], ◌∷◌}
use native.Mathlib.Omega.{arith}
use text.Mathlib.Text.{◌==◌}
use text.Mathlib.TextEquality.{eq_iff}
use baetyl_cloud.Common.Tests.{if◌then◌else◌}

abbrev pub Dict {ℓ} : Type ℓ → Type ℓ
Dict V = List (String × V)

module _ {ℓ} {V : Type ℓ} where
  -- v, ok := m[key]
  unfoldable pub lookup : String → Dict V → Option V
  lookup key [] = none
  lookup key (e ∷ es) = let later = lookup key es in if e.0 == key then some e.1 else later

  -- m[key] = value
  unfoldable pub insert : String → V → Dict V → Dict V
  insert key value [] = (key, value) ∷ []
  insert key value (e ∷ es) =
      let rest = insert key value es in if e.0 == key then (key, value) ∷ es else e ∷ rest

  -- delete(m, key)
  unfoldable pub erase : String → Dict V → Dict V
  erase key [] = []
  erase key (e ∷ es) = let rest = erase key es in if e.0 == key then rest else e ∷ rest

  pub lookup-insert :
      (key other : String) (value : V) (es : Dict V)
      → lookup other (insert key value es) ≡ (if key == other then some value else lookup other es)
  unfolding lookup insert
  lookup-insert key other value [] = ground arith
  lookup-insert key other value (e ∷ es) =
      ground (
        arith,
        lookup-insert key other value es,
        eq_iff key other,
        eq_iff e.0 other,
        eq_iff e.0 key,
      )

  pub lookup-erase :
      (key other : String) (es : Dict V)
      → lookup other (erase key es) ≡ (if key == other then none else lookup other es)
  unfolding lookup erase
  lookup-erase key other [] = ground arith
  lookup-erase key other (e ∷ es) =
      ground (arith, lookup-erase key other es, eq_iff key other, eq_iff e.0 other, eq_iff e.0 key)
