-- ===== src/Config/Store/History.antt =====
-- The configuration file over a history of saves, updates and first runs.
use onvif_simulator.Prelude.{
  Bool, Option, none, some, List, [], ◌∷◌, All, ◌≡◌, refl, sym, subst, ◌⊎◌, inl, inr, if_both,
  Option-cases, not,
}
use onvif_simulator.Config.Types.{Config}
use onvif_simulator.Config.Platform.{Platform}
use onvif_simulator.Config.Validate.{validate}
use onvif_simulator.Config.Update.{Mutated}
use onvif_simulator.Config.Store.{
  Codec, StoreError, stat_failed, Outcome, ok, err, Files, Faults, parse_file, save, update,
  write_temp_file, older,
}
use onvif_simulator.Config.Store.FirstRun.{
  FirstRun, default_config, link, cleaned, linked, create_default, when_absent, ensure_exists,
}
use onvif_simulator.Config.Store.Cases.{Kept, Done, save_cases, write_temp_file_cases}
use onvif_simulator.Config.Store.Laws.{parse_file-saved, update_atomic}

pub data Action (Bytes : Type 0) : Type 0 where
  saves : Faults Bytes → Option Config → Action Bytes
  updates : Faults Bytes → Option (Config → Mutated) → Action Bytes
  first_runs : Faults Bytes → FirstRun Bytes → Action Bytes

module _ {Bytes : Type 0} (go : Platform) (json : Codec Bytes) where
  unfoldable pub step : Action Bytes → Files Bytes → Files Bytes
  unfolding save update ensure_exists
  step (saves os c) f = (save go json os c f).0
  step (updates os m) f = (update go json os m f).0
  step (first_runs os env) f = (ensure_exists go json os env f).0

  unfoldable pub run : List (Action Bytes) → Files Bytes → Files Bytes
  unfolding step
  run [] f = f
  run (a ∷ rest) f = run rest (step a f)

  -- The file is absent, or a reading of it gives a valid configuration.
  unfoldable pub IsLoadable : Option Bytes → Type 0
  IsLoadable o = (o ≡ none) ⊎ ((c : Config) × (parse_file go json o ≡ ok c))

  -- The file that another process may create is loadable too.
  unfoldable pub IsFair : Action Bytes → Type 0
  unfolding IsLoadable
  IsFair (first_runs os env) = IsLoadable env.rival
  IsFair (saves os c) = Unit
  IsFair (updates os m) = Unit

module _ {Bytes : Type 0} (go : Platform) (json : Codec Bytes)
    (law : (c : Config) (text : Bytes)
      → json.marshal_indent c ≡ some text
      → json.unmarshal (json.append_newline text) ≡ some c) where
  IsGood : Files Bytes → Type 0
  IsGood f = IsLoadable go json f.config_file

  kept : (f : Files Bytes) (r : Files Bytes × Option StoreError) → Kept f r → IsGood f → IsGood r.0
  unfolding IsGood
  kept f r h g = subst (IsLoadable go json) (sym h.1) g

  saved :
      (os : Faults Bytes) (c : Config) (f : Files Bytes) (r : Files Bytes × Option StoreError)
      → Done go json os c f r
      → IsGood f
      → IsGood r.0
  unfolding IsGood IsLoadable
  saved os c f r (inl h) g = kept f r h g
  saved os c f r (inr (text, v, m, e)) g =
      subst (λ q. IsLoadable go json q.0.config_file) (sym e)
        (inr (c, parse_file-saved go json law c text v m))

  cleaned-IsGood :
      (os : Faults Bytes) (f : Files Bytes) (r : Outcome Bool)
      → IsGood f
      → IsGood (cleaned go json os (f, r)).0
  unfolding IsGood cleaned
  cleaned-IsGood os f r g =
      if_both IsGood os.remove_works (record f { temp_files = older f.temp_files }) f g g

  linked-IsGood :
      (os : Faults Bytes) (env : FirstRun Bytes) (rival : Option Bytes) (c : Config) (text : Bytes)
      (f : Files Bytes)
      → validate go c ≡ none
      → json.marshal_indent c ≡ some text
      → IsGood f
      → IsLoadable go json rival
      → IsGood
          (cleaned go json os (
            link go json env rival
              (record f { temp_files = json.append_newline text ∷ f.temp_files }))).0
  unfolding IsGood IsLoadable link
  linked-IsGood os env (some theirs) c text f v m g h = cleaned-IsGood os _ _ h
  linked-IsGood os env none c text f v m g h =
      if_both (λ q. IsGood (cleaned go json os q).0) env.link_works _ _
        (cleaned-IsGood os _ _ (inr (c, parse_file-saved go json law c text v m)))
        (cleaned-IsGood os _ _ g)

  create_default-IsGood :
      (os : Faults Bytes) (env : FirstRun Bytes) (f : Files Bytes)
      → IsGood f
      → IsLoadable go json env.rival
      → IsGood (create_default go json os env f).0
  unfolding create_default linked
  create_default-IsGood os env f g h = elim (Option-cases (validate go (default_config env.uuid))) [
    | inr (e, v) ↦ rw (create_default, v) g
    | inl v ↦
        rw (create_default, v)
          (elim (write_temp_file_cases go json os (default_config env.uuid) f) [
            | inl k ↦ failed (write_temp_file go json os (default_config env.uuid) f) k
            | inr (text, m, w) ↦
                subst (λ r. IsGood (linked go json os env r).0) (sym w)
                  (linked-IsGood os env env.rival (default_config env.uuid) text f v m g h)
          ])
  ]
    where
      failed : (r : Files Bytes × Option StoreError) → Kept f r → IsGood (linked go json os env r).0
      failed (q, some e) k = kept f (q, some e) k g
      failed (q, none) k = absurd (k.0 refl)

  when_absent-IsGood :
      (o : Option Bytes) (os : Faults Bytes) (env : FirstRun Bytes) (f : Files Bytes)
      → IsGood f
      → IsLoadable go json env.rival
      → IsGood (when_absent go json o os env f).0
  unfolding when_absent
  when_absent-IsGood (some text) os env f g h = g
  when_absent-IsGood none os env f g h = create_default-IsGood os env f g h

  step-IsGood :
      (a : Action Bytes) (f : Files Bytes) → IsFair go json a → IsGood f → IsGood (step go json a f)
  unfolding step IsFair save update ensure_exists IsGood IsLoadable
  step-IsGood (saves os none) f h g = g
  step-IsGood (saves os (some c)) f h g =
      saved os c f (save go json os (some c) f) (save_cases go json os c f) g
  step-IsGood (updates os none) f h g = g
  step-IsGood (updates os (some m)) f h g = elim (update_atomic go json law os m f) [
    | inl k ↦ kept f (update go json os (some m) f) k g
    | inr (c, c', l, e, v, o, r, t) ↦ inr (c', r)
  ]
  step-IsGood (first_runs os env) f h g =
      if_both (λ r. IsGood r.0) (not env.stat_works) (f, err stat_failed)
        (when_absent go json f.config_file os env f) g
        (when_absent-IsGood f.config_file os env f g h)

  -- Over every history of saves, updates and first runs, with every fault, a file that was absent
  -- or held a valid configuration is absent or holds a valid configuration at the end. It assumes
  -- that JSON reads back what it wrote and that another process that creates the file between the
  -- test and the link of a first run writes a valid one.
  pub run-IsLoadable :
      (history : List (Action Bytes)) (f : Files Bytes)
      → All (IsFair go json) history
      → IsLoadable go json f.config_file
      → IsLoadable go json (run go json history f).config_file
  unfolding run IsGood
  run-IsLoadable [] f h g = g
  run-IsLoadable (a ∷ rest) f h g =
      run-IsLoadable rest (step go json a f) h.1 (step-IsGood a f h.0 g)
