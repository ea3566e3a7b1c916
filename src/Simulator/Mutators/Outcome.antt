-- ===== src/Simulator/Mutators/Outcome.antt =====
-- What each call leaves, for every fault on its way.
use onvif_simulator.Prelude.{some, String, ◌≡◌, refl, sym, ap, ◌∙◌, inl, inr}
use onvif_simulator.Prelude.Int.{ℤ}
use onvif_simulator.Config.Types.{Config}
use onvif_simulator.Config.Platform.{Platform}
use onvif_simulator.Config.Update.{Mutated, upsert_user, remove_user, set_auth_enabled}
use onvif_simulator.Config.Store.{Codec, Files, load, parse_file, update}
use onvif_simulator.Config.Store.Laws.{update_atomic}
use onvif_simulator.Auth.UserStore.{
  UserStore, after_update, set_user, drop_user, record_from_config, controller_call,
  controller_upsert_user, controller_remove_user, controller_set_auth_enabled,
}
use onvif_simulator.Simulator.AuthChain.{KeyLibrary}
use onvif_simulator.Simulator.State.{Simulator, MutationRecord}
use onvif_simulator.Simulator.Mutators.{
  Env, Command, sets_discovery_mode, sets_hostname, adds_profile, removes_profile,
  sets_profile_media_file_path, sets_profile_kind, sets_profile_snapshot_uri, sets_profile_rpicam,
  sets_topic_enabled, sets_events_topics, adds_user, upserts_user, removes_user, sets_auth_enabled,
  planned, after_change, through_config, through_controller, run_command,
}
use onvif_simulator.Simulator.Mutators.Changes.{
  IsOutcome, refused_change, committed_change, after_update-fields,
}

module _ {Bytes : Type 0} (go : Platform) (json : Codec Bytes) {lib : KeyLibrary}
    (law : (c : Config) (text : Bytes)
      → json.marshal_indent c ≡ some text
      → json.unmarshal (json.append_newline text) ≡ some c) where
  through_config-IsOutcome :
      (itoa : ℤ → String) (env : Env Bytes) (mutate : Config → Mutated) (m : MutationRecord)
      (s : Simulator Bytes lib)
      → IsOutcome go json env.reloading mutate
          (load go json env.saving s.files)
          s
          (through_config go json lib itoa env mutate m s)
  unfolding through_config IsOutcome
  through_config-IsOutcome itoa env mutate m s =
      let r = update go json env.saving (some mutate) s.files in
      elim (update_atomic go json law env.saving mutate s.files) [
        | inl (ne, k) ↦ inl (
            refused_change go json itoa env.reloading m s _ r.1 ne
              (k, refl, refl, refl, refl, refl, refl))
        | inr (c, c', l, q, v, n, p, t) ↦ inr (
          c,
          c',
          l,
          q,
          committed_change go json itoa env.reloading m s _ r.1 c' n p (refl, refl, refl, refl),
        )
      ]

  -- The same with a change of the store behind it.
  controller-IsOutcome :
      (itoa : ℤ → String) (env : Env Bytes) (mutate : Config → Mutated) (g : UserStore → UserStore)
      (m : MutationRecord) (s : Simulator Bytes lib)
      → (let r = after_update (update go json env.saving (some mutate) s.files) g s.store in
          IsOutcome go json env.reloading mutate (load go json env.saving s.files) s (
            after_change go json lib itoa env.reloading m
              (record s { files = r.0; store = r.1 })
              r.2))
  unfolding IsOutcome
  controller-IsOutcome itoa env mutate g m s =
      let r = update go json env.saving (some mutate) s.files in
      let (files, error, users) = after_update-fields r g s.store in
      let t = after_update r g s.store in
      elim (update_atomic go json law env.saving mutate s.files) [
        | inl (ne, k) ↦ inl (
            refused_change go json itoa env.reloading m s _ t.2 (λ h. ne (sym error ∙ h))
              (
                ap (λ (f : Files Bytes). f.config_file) files ∙ k,
                refl,
                refl,
                users ne,
                refl,
                refl,
                refl,
              ))
        | inr (c, c', l, q, v, n, p, x) ↦ inr (
          c,
          c',
          l,
          q,
          committed_change go json itoa env.reloading m s _ t.2 c' (error ∙ n)
              (ap (λ (f : Files Bytes). parse_file go json f.config_file) files ∙ p)
              (refl, refl, refl, refl),
        )
      ]

  -- Whatever fails on its way, each of the 14 calls of the front ends has one of these outcomes: an
  -- error, with the configuration file, the live configuration, the broker, the users, the chain and
  -- the reports as they were; or its change applied to the configuration that the file held, with a
  -- file that reads as the result, and then either no error, and the live configuration, the
  -- broker's configuration, the users, the chain and its flag all follow that result, or an error,
  -- with the old chain and flag, and the other parts all follow the file, or the file could not be
  -- read again and the live configuration and the broker are as they were. It assumes that JSON reads back what it wrote.
  pub run_command-IsOutcome :
      (itoa : ℤ → String) (env : Env Bytes) (command : Command) (s : Simulator Bytes lib)
      → IsOutcome go json env.reloading
          (planned command)
          (load go json env.saving s.files)
          s
          (run_command go json lib itoa env command s)
  unfolding run_command planned through_controller controller_call controller_upsert_user
      controller_remove_user controller_set_auth_enabled
  run_command-IsOutcome itoa env (sets_discovery_mode mode) s =
      through_config-IsOutcome itoa env _ _ s
  run_command-IsOutcome itoa env (sets_hostname name) s = through_config-IsOutcome itoa env _ _ s
  run_command-IsOutcome itoa env (adds_profile p) s = through_config-IsOutcome itoa env _ _ s
  run_command-IsOutcome itoa env (removes_profile token) s = through_config-IsOutcome itoa env _ _ s
  run_command-IsOutcome itoa env (sets_profile_media_file_path token path) s =
      through_config-IsOutcome itoa env _ _ s
  run_command-IsOutcome itoa env (sets_profile_kind token kind) s =
      through_config-IsOutcome itoa env _ _ s
  run_command-IsOutcome itoa env (sets_profile_snapshot_uri token uri) s =
      through_config-IsOutcome itoa env _ _ s
  run_command-IsOutcome itoa env (sets_profile_rpicam token r) s =
      through_config-IsOutcome itoa env _ _ s
  run_command-IsOutcome itoa env (sets_topic_enabled name b) s =
      through_config-IsOutcome itoa env _ _ s
  run_command-IsOutcome itoa env (sets_events_topics ts) s = through_config-IsOutcome itoa env _ _ s
  run_command-IsOutcome itoa env (adds_user u) s = through_config-IsOutcome itoa env _ _ s
  run_command-IsOutcome itoa env (upserts_user u) s =
      controller-IsOutcome itoa env (upsert_user u) (set_user (record_from_config u)) _ s
  run_command-IsOutcome itoa env (removes_user name) s =
      controller-IsOutcome itoa env (remove_user name) (drop_user name) _ s
  run_command-IsOutcome itoa env (sets_auth_enabled b) s =
      controller-IsOutcome itoa env (set_auth_enabled b) (λ t. t) _ s
