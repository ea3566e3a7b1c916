-- ===== src/Config/Store.antt =====
-- config.go's Load, Save and EnsureExists, and update.go's Update, on the state of the file system:
-- the configuration file and the temporary files beside it. Each call of the operating system has its
-- outcome as an input. Update holds a mutex; Save and EnsureExists, which do not, are whole steps as
-- well.
pub mod FirstRun
pub mod Cases
pub mod Laws
pub mod Success
pub mod History
use onvif_simulator.Prelude.{
  Bool, true, false, not, Option, none, some, List, [], ◌∷◌, if◌then◌else◌,
}
use onvif_simulator.Config.Types.{Config}
use onvif_simulator.Config.Errors.{ConfigError, nil_config}
use onvif_simulator.Config.Platform.{Platform}
use onvif_simulator.Config.Validate.{validate}
use onvif_simulator.Config.Update.{UpdateError, mutate_required, Mutated, changed, refused}

-- encoding/json on a configuration, and the newline that the package puts behind the text.
pub record Codec (Bytes : Type 0) : Type 0 where
  pub marshal_indent : Config → Option Bytes
  pub append_newline : Bytes → Bytes
  pub unmarshal : Bytes → Option Config

pub data StoreError : Type 0 where
  no_path read_failed parse_failed stat_failed : StoreError
  invalid : ConfigError → StoreError
  update_refused : UpdateError → StoreError
  marshal_failed mkdir_failed create_failed chmod_failed write_failed close_failed : StoreError
  rename_failed link_failed : StoreError

pub data Outcome {ℓ} (A : Type ℓ) : Type ℓ where
  ok : A → Outcome A
  err : StoreError → Outcome A

-- os.CreateTemp draws a fresh name, so temporary files that an earlier call could not remove stay
-- beside the new one. The newest is first: while a call runs, it is the call's own.
pub record Files (Bytes : Type 0) : Type 0 where
  pub config_file : Option Bytes
  pub temp_files : List Bytes

abbrev pub newest {ℓ} : {A : Type ℓ} → List A → Option A
newest [] = none
newest (t ∷ ts) = some t

abbrev pub older {ℓ} : {A : Type ℓ} → List A → List A
older [] = []
older (t ∷ ts) = ts

-- Which calls of the operating system succeed; `partial` is what a failed write leaves behind.
pub record Faults (Bytes : Type 0) : Type 0 where
  pub path_resolves : Bool
  pub readable : Bool
  pub mkdir_works : Bool
  pub create_works : Bool
  pub chmod_works : Bool
  pub write_works : Bool
  pub partial : Bytes
  pub close_works : Bool
  pub rename_works : Bool
  pub remove_works : Bool

module _ {Bytes : Type 0} (go : Platform) (json : Codec Bytes) where
  unfoldable pub validated : Config → Outcome Config
  validated c = elim (validate go c) [ none ↦ ok c | some e ↦ err (invalid e) ]

  unfoldable pub parse_file : Option Bytes → Outcome Config
  unfolding validated
  parse_file none = err read_failed
  parse_file (some text) = elim (json.unmarshal text) [
    | none ↦ err parse_failed
    | some c ↦ validated c
  ]

  unfoldable pub load : Faults Bytes → Files Bytes → Outcome Config
  unfolding parse_file
  load os f =
      if not os.path_resolves
      then err no_path
      else if not os.readable
      then err read_failed
      else parse_file f.config_file

  -- os.Remove(tmpPath), which may fail.
  unfoldable pub remove_temp : Faults Bytes → Files Bytes → Files Bytes
  remove_temp os f = if os.remove_works then record f { temp_files = older f.temp_files } else f

  unfoldable pub write_bytes : Faults Bytes → Bytes → Files Bytes → Files Bytes × Option StoreError
  unfolding remove_temp
  write_bytes os text f =
      if not os.mkdir_works
      then (f, some mkdir_failed)
      else if not os.create_works
      then (f, some create_failed)
      else if not os.chmod_works
      then (remove_temp os (record f { temp_files = os.partial ∷ f.temp_files }), some chmod_failed)
      else if not os.write_works
      then (remove_temp os (record f { temp_files = os.partial ∷ f.temp_files }), some write_failed)
      else if not os.close_works
      then (remove_temp os (record f { temp_files = text ∷ f.temp_files }), some close_failed)
      else (record f { temp_files = text ∷ f.temp_files }, none)

  unfoldable pub write_temp_file :
      Faults Bytes → Config → Files Bytes → Files Bytes × Option StoreError
  unfolding write_bytes
  write_temp_file os c f = elim (json.marshal_indent c) [
    | none ↦ (f, some marshal_failed)
    | some text ↦ write_bytes os (json.append_newline text) f
  ]

  -- The rename replaces the file as a whole.
  unfoldable pub promote :
      Faults Bytes → Files Bytes × Option StoreError → Files Bytes × Option StoreError
  unfolding remove_temp
  promote os (f, some e) = (f, some e)
  promote os (f, none) =
      if os.rename_works
      then (record { config_file = newest f.temp_files; temp_files = older f.temp_files }, none)
      else (remove_temp os f, some rename_failed)

  unfoldable pub write_atomic :
      Faults Bytes → Config → Files Bytes → Files Bytes × Option StoreError
  unfolding write_temp_file promote
  write_atomic os c f = promote os (write_temp_file os c f)

  -- A nil pointer is `none`.
  unfoldable pub save : Faults Bytes → Option Config → Files Bytes → Files Bytes × Option StoreError
  unfolding write_atomic
  save os none f = (f, some (invalid nil_config))
  save os (some c) f = elim (validate go c) [
    | some e ↦ (f, some (invalid e))
    | none ↦ if os.path_resolves then write_atomic os c f else (f, some no_path)
  ]

  unfoldable pub save_mutated :
      Faults Bytes → Mutated → Files Bytes → Files Bytes × Option StoreError
  unfolding save
  save_mutated os (refused e) f = (f, some (update_refused e))
  save_mutated os (changed c) f = save os (some c) f

  unfoldable pub update_loaded :
      Faults Bytes
      → (Config → Mutated)
      → Outcome Config
      → Files Bytes
      → Files Bytes × Option StoreError
  unfolding save_mutated
  update_loaded os mutate (err e) f = (f, some e)
  update_loaded os mutate (ok c) f = save_mutated os (mutate c) f

  unfoldable pub update :
      Faults Bytes → Option (Config → Mutated) → Files Bytes → Files Bytes × Option StoreError
  unfolding update_loaded load
  update os none f = (f, some (update_refused mutate_required))
  update os (some mutate) f = update_loaded os mutate (load os f) f
