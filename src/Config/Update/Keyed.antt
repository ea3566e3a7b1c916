-- ===== src/Config/Update/Keyed.antt =====
-- The loops of update.go over a slice whose entries have a text key.
use onvif_simulator.Prelude.{
  Bool, false, ◌||◌, not, String, List, [], ◌∷◌, if◌then◌else◌, str_eq, keep,
}

module _ {ℓ} {A : Type ℓ} (key : A → String) where
  -- Whether an entry has the key: the loop that returns an "already exists" error.
  unfoldable pub has_key : String → List A → Bool
  has_key k [] = false
  has_key k (x ∷ xs) = str_eq (key x) k || has_key k xs

  -- The loop with `removed` and `filtered`: every entry of that key goes.
  unfoldable pub without_key : String → List A → List A
  without_key k = keep (λ x. not (str_eq (key x) k))

  -- The loop that changes the first entry of that key and returns.
  unfoldable pub modify_first : (A → A) → String → List A → List A
  modify_first f k [] = []
  modify_first f k (x ∷ xs) =
      let rest = modify_first f k xs in if str_eq (key x) k then f x ∷ xs else x ∷ rest
