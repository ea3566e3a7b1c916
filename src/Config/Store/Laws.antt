-- ===== src/Config/Store/Laws.antt =====
-- Update as one transaction on the configuration file, for every change and every fault.
use onvif_simulator.Prelude.{Option, none, some, ◌≡◌, refl, sym, subst, ◌⊎◌, inl, inr, arith}
use onvif_simulator.Config.Types.{Config}
use onvif_simulator.Config.Platform.{Platform}
use onvif_simulator.Config.Validate.{validate}
use onvif_simulator.Config.Update.{Mutated, changed, refused}
use onvif_simulator.Config.Store.{
  Codec, StoreError, Outcome, ok, err, Files, Faults, validated, parse_file, load, save,
  save_mutated, update_loaded, update,
}
use onvif_simulator.Config.Store.Cases.{Kept, save_cases}

module _ {Bytes : Type 0} (go : Platform) (json : Codec Bytes) where
  -- The configuration that a successful update leaves: read before, changed, valid, and what a
  -- reading of the file gives after.
  abbrev pub Committed :
      (Config → Mutated) → Outcome Config → Files Bytes → Files Bytes × Option StoreError → Type 0
  Committed mutate before f r =
      (c : Config) × (c' : Config) × (before ≡ ok c)
      × (mutate c ≡ changed c')
      × (validate go c' ≡ none)
      × (r.1 ≡ none)
      × (parse_file go json r.0.config_file ≡ ok c')
      × (r.0.temp_files ≡ f.temp_files)

module _ {Bytes : Type 0} (go : Platform) (json : Codec Bytes)
    (law : (c : Config) (text : Bytes)
      → json.marshal_indent c ≡ some text
      → json.unmarshal (json.append_newline text) ≡ some c) where
  -- What a save wrote is read back.
  pub parse_file-saved :
      (c : Config) (text : Bytes)
      → validate go c ≡ none
      → json.marshal_indent c ≡ some text
      → parse_file go json (some (json.append_newline text)) ≡ ok c
  unfolding parse_file validated
  parse_file-saved c text v m = rw (parse_file, law c text m, validated, v) refl

  save_decides :
      (os : Faults Bytes) (mutate : Config → Mutated) (c c' : Config) (f : Files Bytes)
      → mutate c ≡ changed c'
      → Kept f (save go json os (some c') f)
        ⊎ Committed go json mutate (ok c) f (save go json os (some c') f)
  save_decides os mutate c c' f m = elim (save_cases go json os c' f) [
    | inl h ↦ inl h
    | inr (text, v, t, e) ↦ inr (
        subst (Committed go json mutate (ok c) f) (sym e)
          (c, c', refl, m, v, refl, parse_file-saved c' text v t, refl))
  ]

  mutated_cases :
      (mutate : Config → Mutated) (c : Config) (r : Mutated)
      → mutate c ≡ r
      → (os : Faults Bytes) (f : Files Bytes)
      → Kept f (save_mutated go json os r f)
        ⊎ Committed go json mutate (ok c) f (save_mutated go json os r f)
  unfolding save_mutated
  mutated_cases mutate c (refused e) m os f = inl ((λ h. ground (arith, h)), refl)
  mutated_cases mutate c (changed c') m os f = save_decides os mutate c c' f m

  loaded_cases :
      (mutate : Config → Mutated) (before : Outcome Config) (os : Faults Bytes) (f : Files Bytes)
      → Kept f (update_loaded go json os mutate before f)
        ⊎ Committed go json mutate before f (update_loaded go json os mutate before f)
  unfolding update_loaded
  loaded_cases mutate (err e) os f = inl ((λ h. ground (arith, h)), refl)
  loaded_cases mutate (ok c) os f = mutated_cases mutate c (mutate c) refl os f

  -- Whatever fails, an update either reports an error and leaves the configuration file as it was,
  -- or it reports none, its change was applied to the configuration that the file held and gave a
  -- valid one, a reading of the file now gives that one, and the temporary files are those of
  -- before the call. It assumes that JSON reads back what it wrote.
  pub update_atomic :
      (os : Faults Bytes) (mutate : Config → Mutated) (f : Files Bytes)
      → Kept f (update go json os (some mutate) f)
        ⊎ Committed go json mutate (load go json os f) f (update go json os (some mutate) f)
  unfolding update
  update_atomic os mutate f = loaded_cases mutate (load go json os f) os f
