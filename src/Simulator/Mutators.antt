-- ===== src/Simulator/Mutators.antt =====
-- internal/simulator/mutators.go: the calls by which the front ends change the configuration. Each
-- changes the file, reloads it and reports the change.
pub mod Changes
pub mod Outcome
pub mod History
use Prim.Native.String.{◌++◌}
use onvif_simulator.Prelude.{
  ℕ, Bool, true, false, Option, none, some, String, List, [], ◌∷◌, length, if◌then◌else◌,
}
use onvif_simulator.Prelude.Int.{ℤ, pos}
use onvif_simulator.Config.Types.{Config, UserConfig, ProfileConfig, RpiCamConfig, TopicConfig}
use onvif_simulator.Config.Platform.{Platform}
use onvif_simulator.Config.Update.{
  Mutated, add_user, upsert_user, remove_user, set_auth_enabled, add_profile, remove_profile,
  set_profile_media_file_path, set_profile_kind, set_profile_rpicam, set_profile_snapshot_uri,
}
use onvif_simulator.Config.Update.Runtime.{
  set_discovery_mode, set_hostname, set_events_topics, set_topic_enabled,
}
use onvif_simulator.Config.Store.{Codec, Faults, Files, StoreError, update}
use onvif_simulator.Auth.UserStore.{UserStore, UserChange, upsert, remove, toggle, controller_call}
use onvif_simulator.Simulator.AuthChain.{KeyLibrary}
use onvif_simulator.Simulator.State.{
  Simulator, SimulatorError, store_error, MutationRecord, reload_from_disk,
}

-- The outcome of the system calls of the change and of the reload, and the time of the report.
pub record Env (Bytes : Type 0) : Type 0 where
  pub saving : Faults Bytes
  pub reloading : Faults Bytes
  pub at : ℕ

-- The calls with their arguments.
pub data Command : Type 0 where
  sets_discovery_mode sets_hostname : String → Command
  adds_profile : ProfileConfig → Command
  removes_profile : String → Command
  sets_profile_media_file_path sets_profile_kind sets_profile_snapshot_uri :
      String → String → Command
  sets_profile_rpicam : String → Option RpiCamConfig → Command
  sets_topic_enabled : String → Bool → Command
  sets_events_topics : List TopicConfig → Command
  adds_user upserts_user : UserConfig → Command
  removes_user : String → Command
  sets_auth_enabled : Bool → Command

-- The change of the configuration that a call asks for.
unfoldable pub planned : Command → Config → Mutated
planned (sets_discovery_mode mode) = set_discovery_mode mode
planned (sets_hostname name) = set_hostname name
planned (adds_profile p) = add_profile p
planned (removes_profile token) = remove_profile token
planned (sets_profile_media_file_path token path) = set_profile_media_file_path token path
planned (sets_profile_kind token kind) = set_profile_kind token kind
planned (sets_profile_snapshot_uri token uri) = set_profile_snapshot_uri token uri
planned (sets_profile_rpicam token r) = set_profile_rpicam token r
planned (sets_topic_enabled name b) = set_topic_enabled name b
planned (sets_events_topics ts) = set_events_topics ts
planned (adds_user u) = add_user u
planned (upserts_user u) = upsert_user u
planned (removes_user name) = remove_user name
planned (sets_auth_enabled b) = set_auth_enabled b

-- The verb %t of package fmt.
abbrev print_bool : Bool → String
print_bool b = if b then "true" else "false"

abbrev pub report : ℕ → String → String → String → MutationRecord
report at kind target detail = record { time = at; kind = kind; target = target; detail = detail }

module _ {Bytes : Type 0} (go : Platform) (json : Codec Bytes) (lib : KeyLibrary)
    (itoa : ℤ → String) where
  -- recordMutation, with a callback set.
  unfoldable pub record_mutation : MutationRecord → Simulator Bytes lib → Simulator Bytes lib
  record_mutation m s = record s { mutations = m ∷ s.mutations }

  unfoldable pub reported :
      MutationRecord
      → Simulator Bytes lib × Option SimulatorError
      → Simulator Bytes lib × Option SimulatorError
  unfolding record_mutation
  reported m (s, some e) = (s, some e)
  reported m (s, none) = (record_mutation m s, none)

  -- What follows a change of the file.
  unfoldable pub after_change :
      Faults Bytes
      → MutationRecord
      → Simulator Bytes lib
      → Option StoreError
      → Simulator Bytes lib × Option SimulatorError
  unfolding reported reload_from_disk
  after_change os m s (some e) = (s, some (store_error e))
  after_change os m s none = reported m (reload_from_disk go json lib os s)

  -- A change by a function of internal/config.
  unfoldable pub through_config :
      Env Bytes
      → (Config → Mutated)
      → MutationRecord
      → Simulator Bytes lib
      → Simulator Bytes lib × Option SimulatorError
  unfolding after_change update
  through_config env mutate m s =
      let r = update go json env.saving (some mutate) s.files in
      after_change env.reloading m (record s { files = r.0 }) r.1

  -- A change by the controller, which has the store changed as well.
  unfoldable pub through_controller :
      Env Bytes
      → UserChange
      → MutationRecord
      → Simulator Bytes lib
      → Simulator Bytes lib × Option SimulatorError
  unfolding after_change controller_call
  through_controller env change m s =
      let r = controller_call go json env.saving change s.files s.store in
      after_change env.reloading m (record s { files = r.0; store = r.1 }) r.2

  abbrev rpicam_detail : Option RpiCamConfig → String
  rpicam_detail none = "cleared"
  rpicam_detail (some r) =
      "camera_id="
      ++ (itoa r.camera_id
          ++ (" " ++ (itoa r.width ++ ("x" ++ (itoa r.height ++ ("@" ++ itoa r.fps))))))

  unfoldable pub run_command :
      Env Bytes → Command → Simulator Bytes lib → Simulator Bytes lib × Option SimulatorError
  unfolding through_config through_controller set_discovery_mode set_hostname add_profile
      remove_profile set_profile_media_file_path set_profile_kind set_profile_rpicam
      set_profile_snapshot_uri set_topic_enabled set_events_topics add_user
  run_command env (sets_discovery_mode mode) s =
      through_config env (set_discovery_mode mode) (report env.at "SetDiscoveryMode" "" mode) s
  run_command env (sets_hostname name) s =
      through_config env (set_hostname name) (report env.at "SetHostname" "" name) s
  run_command env (adds_profile p) s =
      through_config env (add_profile p) (report env.at "AddProfile" p.token p.name) s
  run_command env (removes_profile token) s =
      through_config env (remove_profile token) (report env.at "RemoveProfile" token "") s
  run_command env (sets_profile_media_file_path token path) s =
      through_config env (set_profile_media_file_path token path)
        (report env.at "SetProfileMediaFilePath" token path) s
  run_command env (sets_profile_kind token kind) s =
      through_config env (set_profile_kind token kind) (report env.at "SetProfileKind" token kind) s
  run_command env (sets_profile_snapshot_uri token uri) s =
      through_config env (set_profile_snapshot_uri token uri)
        (report env.at "SetProfileSnapshotURI" token uri) s
  run_command env (sets_profile_rpicam token r) s =
      through_config env (set_profile_rpicam token r)
        (report env.at "SetProfileRPICam" token (rpicam_detail r)) s
  run_command env (sets_topic_enabled name b) s =
      through_config env (set_topic_enabled name b)
        (report env.at "SetTopicEnabled" name ("enabled=" ++ print_bool b)) s
  run_command env (sets_events_topics ts) s =
      through_config env (set_events_topics ts)
        (report env.at "SetEventsTopics" "" ("count=" ++ itoa (pos (length ts)))) s
  run_command env (adds_user u) s =
      through_config env (add_user u) (report env.at "AddUser" u.username u.role) s
  run_command env (upserts_user u) s =
      through_controller env (upsert u) (report env.at "UpsertUser" u.username u.role) s
  run_command env (removes_user name) s =
      through_controller env (remove name) (report env.at "RemoveUser" name "") s
  run_command env (sets_auth_enabled b) s =
      through_controller env (toggle b)
        (report env.at "SetAuthEnabled" "" ("enabled=" ++ print_bool b)) s
