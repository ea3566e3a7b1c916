-- ===== src/Prelude/Dict/Entries.antt =====
-- What the changes of a dictionary keep: distinct keys, a predicate on the entries, and counts.
use mathlib.Core.Bool.{Bool}
use mathlib.Core.List.{[], ◌∷◌}
use mathlib.Core.Option.{some}
use mathlib.Core.Path.{◌≡◌, refl}
use native.Mathlib.Omega.{arith}
use Prim.Native.Nat.{◌≤◌, ◌+◌}
use Prim.Native.String.{String}
use onvif_simulator.Prelude.Tests.{if◌then◌else◌}
use onvif_simulator.Prelude.Dict.{
  Dict, lookup, insert, delete, retain, update_all, IsDistinct, AllEntries, count_if,
}
use onvif_simulator.Prelude.Dict.Lookups.{
  lookup-insert, lookup-delete, lookup-update_all, lookup-retain,
}

module _ {ℓ} {V : Type ℓ} where
  pub insert-IsDistinct :
      (k : String) (v : V) (m : Dict V) → IsDistinct m → IsDistinct (insert k v m)
  unfolding insert lookup
  insert-IsDistinct k v [] d = (refl, tt)
  insert-IsDistinct k v ((i, w) ∷ m) d =
      ground (arith, insert-IsDistinct k v m d.1, lookup-insert k i v m)

  pub delete-IsDistinct : (k : String) (m : Dict V) → IsDistinct m → IsDistinct (delete k m)
  unfolding delete
  delete-IsDistinct k [] d = tt
  delete-IsDistinct k ((i, w) ∷ m) d =
      ground (arith, delete-IsDistinct k m d.1, lookup-delete k i m)

  pub retain-IsDistinct : (p : V → Bool) (m : Dict V) → IsDistinct m → IsDistinct (retain p m)
  unfolding retain
  retain-IsDistinct p [] d = tt
  retain-IsDistinct p ((i, w) ∷ m) d =
      ground (arith, retain-IsDistinct p m d.1, lookup-retain p i m d.1)

  pub update_all-IsDistinct : (f : V → V) (m : Dict V) → IsDistinct m → IsDistinct (update_all f m)
  unfolding update_all
  update_all-IsDistinct f [] d = tt
  update_all-IsDistinct f ((i, w) ∷ m) d =
      ground (arith, update_all-IsDistinct f m d.1, lookup-update_all f i m)

  pub count_if-insert :
      (p : V → Bool) (k : String) (v : V) (m : Dict V)
      → count_if p (insert k v m) ≤ count_if p m + (if p v then 1 else 0)
  unfolding count_if insert
  count_if-insert p k v [] = ground arith
  count_if-insert p k v ((i, w) ∷ m) = ground (arith, count_if-insert p k v m)

  pub count_if-delete :
      (p : V → Bool) (k : String) (m : Dict V) → count_if p (delete k m) ≤ count_if p m
  unfolding count_if delete
  count_if-delete p k [] = omega arith
  count_if-delete p k ((i, w) ∷ m) = ground (arith, count_if-delete p k m)

  pub count_if-retain : (p q : V → Bool) (m : Dict V) → count_if p (retain q m) ≤ count_if p m
  unfolding count_if retain
  count_if-retain p q [] = omega arith
  count_if-retain p q ((i, w) ∷ m) = ground (arith, count_if-retain p q m)

  -- An update in place that the test does not see leaves the count.
  pub count_if-update_all :
      (p : V → Bool) (f : V → V) (m : Dict V)
      → ((v : V) → p (f v) ≡ p v)
      → count_if p (update_all f m) ≡ count_if p m
  unfolding count_if update_all
  count_if-update_all p f [] h = refl
  count_if-update_all p f ((i, w) ∷ m) h = ground (arith, h w, count_if-update_all p f m h)

  -- An overwrite by a value that the test does not tell from the old one leaves the count.
  pub count_if-overwrite :
      (p : V → Bool) (k : String) (old new : V) (m : Dict V)
      → lookup k m ≡ some old
      → p new ≡ p old
      → count_if p (insert k new m) ≡ count_if p m
  unfolding count_if insert lookup
  count_if-overwrite p k old new [] e h = cc
  count_if-overwrite p k old new ((i, w) ∷ m) e h = ground (arith, count_if-overwrite p k old new m)

module _ {ℓ κ} {V : Type ℓ} (P : String → V → Type κ) where
  pub AllEntries-lookup :
      (k : String) (v : V) (m : Dict V) → AllEntries P m → lookup k m ≡ some v → P k v
  unfolding lookup
  AllEntries-lookup k v [] h e = cc
  AllEntries-lookup k v ((i, w) ∷ m) h e = ground (arith, AllEntries-lookup k v m h.1)

  pub insert-AllEntries :
      (k : String) (v : V) (m : Dict V) → AllEntries P m → P k v → AllEntries P (insert k v m)
  unfolding insert
  insert-AllEntries k v [] h e = (e, tt)
  insert-AllEntries k v ((i, w) ∷ m) h e = ground (arith, insert-AllEntries k v m h.1 e)

  pub delete-AllEntries : (k : String) (m : Dict V) → AllEntries P m → AllEntries P (delete k m)
  unfolding delete
  delete-AllEntries k [] h = tt
  delete-AllEntries k ((i, w) ∷ m) h = ground (arith, delete-AllEntries k m h.1)

  pub retain-AllEntries : (p : V → Bool) (m : Dict V) → AllEntries P m → AllEntries P (retain p m)
  unfolding retain
  retain-AllEntries p [] h = tt
  retain-AllEntries p ((i, w) ∷ m) h = ground (arith, retain-AllEntries p m h.1)

  pub update_all-AllEntries :
      (f : V → V) (m : Dict V)
      → ((k : String) (v : V) → P k v → P k (f v))
      → AllEntries P m
      → AllEntries P (update_all f m)
  unfolding update_all
  update_all-AllEntries f [] kp h = tt
  update_all-AllEntries f ((i, w) ∷ m) kp h = (kp i w h.0, update_all-AllEntries f m kp h.1)
