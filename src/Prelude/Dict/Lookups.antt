-- ===== src/Prelude/Dict/Lookups.antt =====
-- What `lookup` returns after each change of a dictionary.
use mathlib.Core.Bool.{Bool}
use mathlib.Core.List.{[], ◌∷◌}
use mathlib.Core.Logic.{ite}
use mathlib.Core.Option.{Option, none, some}
use mathlib.Core.Path.{◌≡◌, refl}
use native.Mathlib.Omega.{arith}
use Prim.Native.String.{String}
use onvif_simulator.Prelude.Tests.{if◌then◌else◌}
use onvif_simulator.Prelude.Text.{str_dec}
use onvif_simulator.Prelude.Dict.{Dict, lookup, insert, delete, retain, update_all, IsDistinct}

module _ {ℓ} {V : Type ℓ} where
  pub lookup-insert :
      (k j : String) (v : V) (m : Dict V)
      → lookup j (insert k v m) ≡ ite (str_dec k j) (some v) (lookup j m)
  unfolding lookup insert
  lookup-insert k j v [] = refl
  lookup-insert k j v ((i, w) ∷ m) = ground (arith, lookup-insert k j v m)

  pub lookup-delete :
      (k j : String) (m : Dict V) → lookup j (delete k m) ≡ ite (str_dec k j) none (lookup j m)
  unfolding lookup delete
  lookup-delete k j [] = ground arith
  lookup-delete k j ((i, w) ∷ m) = ground (arith, lookup-delete k j m)

  pub lookup-update_all :
      (f : V → V) (j : String) (m : Dict V)
      → lookup j (update_all f m) ≡ elim (lookup j m) [ none ↦ none | some v ↦ some (f v) ]
  unfolding lookup update_all
  lookup-update_all f j [] = refl
  lookup-update_all f j ((i, w) ∷ m) = ground (arith, lookup-update_all f j m)

  -- With distinct keys, a deletion by value takes away exactly the entries that fail the test.
  abbrev pub keep_value : (V → Bool) → Option V → Option V
  keep_value p none = none
  keep_value p (some v) = if p v then some v else none

  pub lookup-retain :
      (p : V → Bool) (j : String) (m : Dict V)
      → IsDistinct m
      → lookup j (retain p m) ≡ keep_value p (lookup j m)
  unfolding lookup retain
  lookup-retain p j [] d = refl
  lookup-retain p j ((i, w) ∷ m) d = ground (arith, lookup-retain p j m d.1)

  pub lookup-insert_self : (k : String) (v : V) (m : Dict V) → lookup k (insert k v m) ≡ some v
  lookup-insert_self k v m = ground (arith, lookup-insert k k v m)

  pub lookup-delete_self : (k : String) (m : Dict V) → lookup k (delete k m) ≡ none
  lookup-delete_self k m = ground (arith, lookup-delete k k m)
