-- ===== src/Simulator/Device.antt =====
-- internal/simulator/device_provider.go: what the Device service reads of the simulator (Views) and
-- changes in it. A record of the service that has the fields of one of the configuration is that
-- record.
pub mod Views
pub mod Scopes
use Prim.Native.Char.{code}
use Prim.Native.String.{◌++◌}
use onvif_simulator.Prelude.{
  ℕ, Bool, true, false, not, Option, none, some, String, List, [], ◌∷◌, map, keep, mem_str,
  if◌then◌else◌, str_eq,
}
use onvif_simulator.Prelude
use onvif_simulator.Prelude.Int.{ℤ, pos, eq_ℤ}
use onvif_simulator.Text.{is_space}
use onvif_simulator.Config.Types.{
  Config, UserConfig, DnsConfig, DefaultGatewayConfig, NetworkProtocol, NetworkInterfaceConfig,
  SystemDateTimeConfig,
}
use onvif_simulator.Config.Platform.{Platform}
use onvif_simulator.Config.Update.{Mutated, changed}
use onvif_simulator.Config.Update.Runtime.{
  set_dns, set_default_gateway, set_network_protocols, set_network_interfaces,
  set_system_date_and_time,
}
use onvif_simulator.Config.Store.{Codec, Faults, StoreError, update}
use onvif_simulator.Simulator.AuthChain.{KeyLibrary, text_or}
use onvif_simulator.Simulator.State.{Simulator, SimulatorError}
use onvif_simulator.Simulator.Mutators.{
  Env, Command, sets_discovery_mode, sets_hostname, adds_user, upserts_user, removes_user,
  run_command,
}
use Views.{Host, SystemDateAndTimeInfo, UserInfo}

abbrev pub with_scopes : Config → List String → Config
with_scopes c ss = record c { device = record c.device { scopes = ss } }

unfoldable pub set_scopes : List String → Config → Mutated
set_scopes ss c = changed (with_scopes c ss)

-- The loop of AddScopes; `seen` holds just the scopes there are.
unfoldable pub add_each : List String → List String → List String
unfolding mem_str
add_each have [] = have
add_each have (s ∷ ss) = add_each (if mem_str s have then have else Prelude.◌++◌ have (s ∷ [])) ss

unfoldable pub add_scopes : List String → Config → Mutated
unfolding add_each
add_scopes ss c = changed (with_scopes c (add_each c.device.scopes ss))

-- What RemoveScopes keeps, and what it returns as removed.
unfoldable pub kept_scopes : List String → List String → List String
unfolding mem_str
kept_scopes targets have = keep (λ s. not (mem_str s targets)) have

unfoldable pub removed_scopes : List String → List String → List String
unfolding mem_str
removed_scopes targets have = keep (λ s. mem_str s targets) have

unfoldable pub remove_scopes : List String → Config → Mutated
unfolding kept_scopes
remove_scopes targets c = changed (with_scopes c (kept_scopes targets c.device.scopes))

unfoldable pub date_time_config : Host → SystemDateAndTimeInfo → SystemDateTimeConfig
date_time_config host i = record {
  date_time_type = i.date_time_type;
  daylight_savings = i.daylight_savings;
  tz = i.tz;
  manual_date_time_utc =
      if eq_ℤ i.utc_date_time.year (pos 0) then "" else host.format_rfc3339 i.utc_date_time;
}

-- strings.TrimSpace
abbrev trim_front : String → String
trim_front String.[] = ""
trim_front (String.◌∷◌ c s) =
    let rest = trim_front s in if is_space (code c) then rest else String.◌∷◌ c s

abbrev trim_back : String → String
trim_back String.[] = ""
trim_back (String.◌∷◌ c s) =
    let rest = trim_back s in
    if str_eq rest ""
    then (if is_space (code c) then "" else String.◌∷◌ c rest)
    else String.◌∷◌ c rest

unfoldable pub normalise_user_level : String → String
unfolding text_or
normalise_user_level level = text_or (trim_back (trim_front level)) "User"

unfoldable pub user_config : UserInfo → UserConfig
unfolding normalise_user_level
user_config u = record {
  username = u.username;
  password = u.password;
  role = normalise_user_level u.user_level;
}

module _ {Bytes : Type 0} (go : Platform) (json : Codec Bytes) (lib : KeyLibrary)
    (itoa : ℤ → String) where
  -- The setters that change the file and leave the live configuration alone.
  unfoldable pub change_file :
      Faults Bytes
      → (Config → Mutated)
      → Simulator Bytes lib
      → Simulator Bytes lib × Option StoreError
  unfolding update
  change_file os mutate s =
      let r = update go json os (some mutate) s.files in (record s { files = r.0 }, r.1)

  unfoldable pub service_set_dns :
      Faults Bytes → DnsConfig → Simulator Bytes lib → Simulator Bytes lib × Option StoreError
  unfolding change_file set_dns
  service_set_dns os d s = change_file os (set_dns d) s

  unfoldable pub service_set_network_interfaces :
      Faults Bytes
      → List NetworkInterfaceConfig
      → Simulator Bytes lib
      → Simulator Bytes lib × Option StoreError
  unfolding change_file set_network_interfaces
  service_set_network_interfaces os is s = change_file os (set_network_interfaces is) s

  unfoldable pub service_set_network_protocols :
      Faults Bytes
      → List NetworkProtocol
      → Simulator Bytes lib
      → Simulator Bytes lib × Option StoreError
  unfolding change_file set_network_protocols
  service_set_network_protocols os ps s = change_file os (set_network_protocols ps) s

  unfoldable pub service_set_default_gateway :
      Faults Bytes
      → DefaultGatewayConfig
      → Simulator Bytes lib
      → Simulator Bytes lib × Option StoreError
  unfolding change_file set_default_gateway
  service_set_default_gateway os g s = change_file os (set_default_gateway g) s

  unfoldable pub service_set_system_date_and_time :
      Host
      → Faults Bytes
      → SystemDateAndTimeInfo
      → Simulator Bytes lib
      → Simulator Bytes lib × Option StoreError
  unfolding change_file set_system_date_and_time date_time_config
  service_set_system_date_and_time host os i s =
      change_file os (set_system_date_and_time (date_time_config host i)) s

  unfoldable pub service_set_scopes :
      Faults Bytes → List String → Simulator Bytes lib → Simulator Bytes lib × Option StoreError
  unfolding change_file set_scopes
  service_set_scopes os ss s = change_file os (set_scopes ss) s

  unfoldable pub service_add_scopes :
      Faults Bytes → List String → Simulator Bytes lib → Simulator Bytes lib × Option StoreError
  unfolding change_file add_scopes
  service_add_scopes os ss s = change_file os (add_scopes ss) s

  -- The setters that go through the simulator.
  unfoldable pub service_set_discovery_mode :
      Env Bytes → String → Simulator Bytes lib → Simulator Bytes lib × Option SimulatorError
  unfolding run_command
  service_set_discovery_mode env mode s =
      run_command go json lib itoa env (sets_discovery_mode mode) s

  unfoldable pub service_set_hostname :
      Env Bytes → String → Simulator Bytes lib → Simulator Bytes lib × Option SimulatorError
  unfolding run_command
  service_set_hostname env name s = run_command go json lib itoa env (sets_hostname name) s

  -- The loops of CreateUsers, SetUser and DeleteUsers, which stop at the first error.
  unfoldable pub before_rest :
      (Simulator Bytes lib → Simulator Bytes lib × Option SimulatorError)
      → Simulator Bytes lib × Option SimulatorError
      → Simulator Bytes lib × Option SimulatorError
  before_rest rest (s, some e) = (s, some e)
  before_rest rest (s, none) = rest s

  unfoldable pub run_each :
      List (Env Bytes × Command) → Simulator Bytes lib → Simulator Bytes lib × Option SimulatorError
  unfolding before_rest run_command
  run_each [] s = (s, none)
  run_each ((env, command) ∷ rest) s =
      before_rest (run_each rest) (run_command go json lib itoa env command s)

  unfoldable pub service_create_users :
      List (Env Bytes × UserInfo)
      → Simulator Bytes lib
      → Simulator Bytes lib × Option SimulatorError
  unfolding run_each user_config
  service_create_users users s =
      run_each (map (λ (x : Env Bytes × UserInfo). (x.0, adds_user (user_config x.1))) users) s

  unfoldable pub service_set_user :
      List (Env Bytes × UserInfo)
      → Simulator Bytes lib
      → Simulator Bytes lib × Option SimulatorError
  unfolding run_each user_config
  service_set_user users s =
      run_each (map (λ (x : Env Bytes × UserInfo). (x.0, upserts_user (user_config x.1))) users) s

  unfoldable pub service_delete_users :
      List (Env Bytes × String) → Simulator Bytes lib → Simulator Bytes lib × Option SimulatorError
  unfolding run_each
  service_delete_users names s =
      run_each (map (λ (x : Env Bytes × String). (x.0, removes_user x.1)) names) s
