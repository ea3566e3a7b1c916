-- ===== src/Config/Store/Cases.antt =====
-- The two outcomes of Save: nothing of the configuration file changes, or all of it does.
use onvif_simulator.Prelude.{
  Option, none, some, ◌∷◌, ◌≡◌, ◌≢◌, refl, ◌⊎◌, inl, inr, arith, Option-cases, if◌then◌else◌,
  if_both, subst, sym,
}
use onvif_simulator.Config.Types.{Config}
use onvif_simulator.Config.Errors.{ConfigError}
use onvif_simulator.Config.Platform.{Platform}
use onvif_simulator.Config.Validate.{validate}
use onvif_simulator.Config.Store.{
  Codec, StoreError, Files, Faults, write_bytes, write_temp_file, write_atomic, promote, save,
  remove_temp, marshal_failed, no_path, invalid,
}

module _ {Bytes : Type 0} where
  -- The files with the new text, and the temporary files of before.
  abbrev pub whole : Bytes → Files Bytes → Files Bytes
  whole text f = record { config_file = some text; temp_files = f.temp_files }

  -- A step that failed, with the configuration file as it was.
  abbrev pub Kept : Files Bytes → Files Bytes × Option StoreError → Type 0
  Kept f r = (r.1 ≢ none) × (r.0.config_file ≡ f.config_file)

module _ {Bytes : Type 0} (go : Platform) (json : Codec Bytes) (os : Faults Bytes) where
  pub write_bytes_cases :
      (text : Bytes) (f : Files Bytes)
      → Kept f (write_bytes go json os text f)
        ⊎ (write_bytes go json os text f ≡ (record f { temp_files = text ∷ f.temp_files }, none))
  unfolding write_bytes remove_temp
  write_bytes_cases text f = ground arith

  pub promote_cases :
      (text : Bytes) (f : Files Bytes)
      → Kept f (promote go json os (record f { temp_files = text ∷ f.temp_files }, none))
        ⊎ (promote go json os (record f { temp_files = text ∷ f.temp_files }, none)
            ≡ (whole text f, none))
  unfolding promote remove_temp
  promote_cases text f = ground arith

  -- A save that went through: the configuration is valid and the file is its text as a whole.
  abbrev pub Saved : Config → Files Bytes → Files Bytes × Option StoreError → Type 0
  Saved c f r =
      (text : Bytes) × (validate go c ≡ none)
      × (json.marshal_indent c ≡ some text)
      × (r ≡ (whole (json.append_newline text) f, none))

  pub promote_of :
      (f : Files Bytes) (r : Files Bytes × Option StoreError)
      → Kept f r
      → Kept f (promote go json os r)
  unfolding promote
  promote_of f (g, some e) h = h
  promote_of f (g, none) h = absurd (h.0 refl)

  pub write_temp_file-some :
      (c : Config) (f : Files Bytes) (text : Bytes)
      → json.marshal_indent c ≡ some text
      → write_temp_file go json os c f ≡ write_bytes go json os (json.append_newline text) f
  unfolding write_temp_file
  write_temp_file-some c f text e = rw (write_temp_file, e) refl

  write_temp_file-none :
      (c : Config) (f : Files Bytes)
      → json.marshal_indent c ≡ none
      → write_temp_file go json os c f ≡ (f, some marshal_failed)
  unfolding write_temp_file
  write_temp_file-none c f e = rw (write_temp_file, e) refl

  -- Save's outcome is one of the two.
  abbrev pub Done : Config → Files Bytes → Files Bytes × Option StoreError → Type 0
  Done c f r = Kept f r ⊎ Saved c f r

  pub save-valid :
      (c : Config) (f : Files Bytes)
      → validate go c ≡ none
      → save go json os (some c) f
        ≡ (if os.path_resolves then write_atomic go json os c f else (f, some no_path))
  unfolding save
  save-valid c f v = rw (save, v) refl

  save-invalid :
      (c : Config) (f : Files Bytes) (e : ConfigError)
      → validate go c ≡ some e
      → save go json os (some c) f ≡ (f, some (invalid e))
  unfolding save
  save-invalid c f e v = rw (save, v) refl

  some-ne-none : (e : StoreError) → ◌≢◌ {A = Option StoreError} (some e) none
  some-ne-none e h = ground (arith, h)

  -- A temporary file that was written whole.
  abbrev pub Written : Config → Files Bytes → Files Bytes × Option StoreError → Type 0
  Written c f r =
      (text : Bytes) × (json.marshal_indent c ≡ some text)
      × (r ≡ (record f { temp_files = json.append_newline text ∷ f.temp_files }, none))

  pub write_temp_file_cases :
      (c : Config) (f : Files Bytes)
      → Kept f (write_temp_file go json os c f) ⊎ Written c f (write_temp_file go json os c f)
  write_temp_file_cases c f = elim (Option-cases (json.marshal_indent c)) [
    | inl e ↦
        subst (λ r. Kept f r ⊎ Written c f r) (sym (write_temp_file-none c f e))
          (inl (some-ne-none _, refl))
    | inr (text, e) ↦
        subst (λ r. Kept f r ⊎ Written c f r) (sym (write_temp_file-some c f text e))
          (elim (write_bytes_cases (json.append_newline text) f) [
            | inl h ↦ inl h
            | inr w ↦ inr (text, e, w)
          ])
  ]

  write_atomic-valid :
      (c : Config) (f : Files Bytes) → validate go c ≡ none → Done c f (write_atomic go json os c f)
  unfolding write_atomic
  write_atomic-valid c f v = elim (write_temp_file_cases c f) [
    | inl h ↦ inl (promote_of f (write_temp_file go json os c f) h)
    | inr (text, m, w) ↦
        subst (λ r. Done c f (promote go json os r)) (sym w)
          (elim (promote_cases (json.append_newline text) f) [
            | inl h ↦ inl h
            | inr p ↦ inr (text, v, m, p)
          ])
  ]

  pub save_cases : (c : Config) (f : Files Bytes) → Done c f (save go json os (some c) f)
  save_cases c f = elim (Option-cases (validate go c)) [
    | inr (e, v) ↦ subst (Done c f) (sym (save-invalid c f e v)) (inl (some-ne-none _, refl))
    | inl v ↦ subst (Done c f) (sym (save-valid c f v)) (
        if_both (Done c f) os.path_resolves (write_atomic go json os c f) (f, some no_path)
          (write_atomic-valid c f v) (inl (some-ne-none _, refl)))
  ]
