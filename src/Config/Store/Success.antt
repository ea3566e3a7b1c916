-- ===== src/Config/Store/Success.antt =====
-- An update without faults goes through.
use onvif_simulator.Prelude.{Bool, true, ◌&&◌, none, some, ◌∷◌, ◌≡◌, ◌∙◌, ap, arith, if◌then◌else◌}
use onvif_simulator.Config.Types.{Config}
use onvif_simulator.Config.Platform.{Platform}
use onvif_simulator.Config.Validate.{validate}
use onvif_simulator.Config.Update.{Mutated, changed}
use onvif_simulator.Config.Store.{
  Codec, no_path, ok, Files, Faults, write_bytes, promote, write_atomic, save, save_mutated,
  update_loaded, update, load,
}
use onvif_simulator.Config.Store.Cases.{whole, write_temp_file-some, save-valid}

-- Every call of the operating system that a save makes succeeds.
unfoldable pub all_work : {Bytes : Type 0} → Faults Bytes → Bool
all_work os =
    os.path_resolves && os.mkdir_works && os.create_works && os.chmod_works && os.write_works
    && os.close_works && os.rename_works

module _ {Bytes : Type 0} (go : Platform) (json : Codec Bytes) (os : Faults Bytes)
    (h : all_work os ≡ true) where
  write_bytes-works :
      (text : Bytes) (f : Files Bytes)
      → write_bytes go json os text f ≡ (record f { temp_files = text ∷ f.temp_files }, none)
  unfolding write_bytes all_work
  write_bytes-works text f = ground (arith, h)

  promote-works :
      (text : Bytes) (f : Files Bytes)
      → promote go json os (record f { temp_files = text ∷ f.temp_files }, none)
        ≡ (whole text f, none)
  unfolding promote all_work
  promote-works text f = ground (arith, h)

  write_atomic-works :
      (c : Config) (f : Files Bytes) (text : Bytes)
      → json.marshal_indent c ≡ some text
      → write_atomic go json os c f ≡ (whole (json.append_newline text) f, none)
  unfolding write_atomic
  write_atomic-works c f text m =
      ap (promote go json os) (
        write_temp_file-some go json os c f text m ∙ write_bytes-works (json.append_newline text) f)
      ∙ promote-works (json.append_newline text) f

  path-works : os.path_resolves ≡ true
  unfolding all_work
  path-works = ground (arith, h)

  save-works :
      (c : Config) (f : Files Bytes) (text : Bytes)
      → validate go c ≡ none
      → json.marshal_indent c ≡ some text
      → save go json os (some c) f ≡ (whole (json.append_newline text) f, none)
  save-works c f text v m =
      save-valid go json os c f v
      ∙ ap (λ b. if b then write_atomic go json os c f else (f, some no_path)) path-works
      ∙ write_atomic-works c f text m

  -- If the file loads, the change is made and gives a valid configuration that JSON can print, and
  -- no call of the operating system fails, then the update reports no error and the configuration
  -- file is the new text as a whole, with the temporary files as before the call.
  pub update_succeeds :
      (mutate : Config → Mutated) (f : Files Bytes) (c c' : Config) (text : Bytes)
      → load go json os f ≡ ok c
      → mutate c ≡ changed c'
      → validate go c' ≡ none
      → json.marshal_indent c' ≡ some text
      → update go json os (some mutate) f ≡ (whole (json.append_newline text) f, none)
  unfolding update update_loaded save_mutated
  update_succeeds mutate f c c' text l m v t =
      ap (λ o. update_loaded go json os mutate o f) l
      ∙ ap (λ r. save_mutated go json os r f) m
      ∙ save-works c' f text v t
