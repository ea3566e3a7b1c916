-- ===== src/Prelude/Dict.antt =====
-- Go's `map[string]V` as an association list. A key stands at most once in a list that `insert`
-- built; iteration runs along the list, while Go leaves the order open.
pub mod Lookups
pub mod Entries
use mathlib.Core.Bool.{Bool}
use mathlib.Core.List.{List, [], ◌∷◌}
use mathlib.Core.Logic.{ite}
use mathlib.Core.Option.{Option, none, some}
use mathlib.Core.Path.{◌≡◌}
use Prim.Native.Nat.{ℕ, suc}
use Prim.Native.String.{String}
use onvif_simulator.Prelude.Tests.{if◌then◌else◌}
use onvif_simulator.Prelude.Text.{str_dec}

abbrev pub Dict {ℓ} : Type ℓ → Type ℓ
Dict V = List (String × V)

module _ {ℓ} {V : Type ℓ} where
  -- v, ok := m[k]
  unfoldable pub lookup : String → Dict V → Option V
  lookup k [] = none
  lookup k ((j, v) ∷ m) = ite (str_dec j k) (some v) (lookup k m)

  -- m[k] = v
  unfoldable pub insert : String → V → Dict V → Dict V
  insert k v [] = (k, v) ∷ []
  insert k v ((j, w) ∷ m) = ite (str_dec j k) ((k, v) ∷ m) ((j, w) ∷ insert k v m)

  -- delete(m, k)
  unfoldable pub delete : String → Dict V → Dict V
  delete k [] = []
  delete k ((j, w) ∷ m) = ite (str_dec j k) (delete k m) ((j, w) ∷ delete k m)

  -- the loop that deletes every entry whose value fails the test
  unfoldable pub retain : (V → Bool) → Dict V → Dict V
  retain p [] = []
  retain p ((j, w) ∷ m) = let rest = retain p m in if p w then (j, w) ∷ rest else rest

  -- the loop that updates every value in place
  unfoldable pub update_all : (V → V) → Dict V → Dict V
  update_all f [] = []
  update_all f ((j, w) ∷ m) = (j, f w) ∷ update_all f m

  abbrev pub IsDistinct : Dict V → Type ℓ
  IsDistinct [] = Unit
  IsDistinct ((j, w) ∷ m) = (lookup j m ≡ none) × IsDistinct m

  -- A predicate on every entry.
  abbrev pub AllEntries {κ} : (String → V → Type κ) → Dict V → Type κ
  AllEntries P [] = Unit
  AllEntries P ((j, w) ∷ m) = P j w × AllEntries P m

  -- How many values pass a test.
  unfoldable pub count_if : (V → Bool) → Dict V → ℕ
  count_if p [] = 0
  count_if p ((j, w) ∷ m) = let rest = count_if p m in if p w then suc rest else rest
