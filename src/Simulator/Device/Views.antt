-- ===== src/Simulator/Device/Views.antt =====
-- internal/simulator/device_provider.go: what the Device service reads of the configuration.
use Prim.Native.String.{◌++◌}
use onvif_simulator.Prelude.{
  ℕ, Bool, Option, none, some, String, List, [], ◌∷◌, map, if◌then◌else◌, str_eq,
}
use onvif_simulator.Prelude.Int.{ℤ}
use onvif_simulator.Config.Types.{
  Config, UserConfig, DnsConfig, DefaultGatewayConfig, NetworkProtocol, NetworkInterfaceConfig,
}
use onvif_simulator.Simulator.AuthChain.{text_or}

pub record DeviceInfo : Type 0 where
  pub manufacturer : String
  pub model : String
  pub firmware : String
  pub serial : String
  pub hardware_id : String

pub record ServiceDescriptor : Type 0 where
  pub namespace : String
  pub xaddr : String
  pub major : ℕ
  pub minor : ℕ

pub record ScopeEntry : Type 0 where
  pub scope_def : String
  pub scope_item : String

pub record SystemDateTime : Type 0 where
  pub year : ℤ
  pub month : ℤ
  pub day : ℤ
  pub hour : ℤ
  pub minute : ℤ
  pub second : ℤ

pub record SystemDateAndTimeInfo : Type 0 where
  pub date_time_type : String
  pub daylight_savings : Bool
  pub tz : String
  pub utc_date_time : SystemDateTime

pub record UserInfo : Type 0 where
  pub username : String
  pub password : String
  pub user_level : String

-- The address of the host, the clock, time.Parse and the print of a date by RFC 3339, and
-- net.JoinHostPort with strconv.Itoa.
pub record Host : Type 0 where
  pub local_addr : String
  pub now : SystemDateTime
  pub parse_rfc3339 : String → Option SystemDateTime
  pub format_rfc3339 : SystemDateTime → String
  pub join_host_port : String → ℤ → String

unfoldable pub device_info : Config → DeviceInfo
device_info c = record {
  manufacturer = c.device.manufacturer;
  model = c.device.model;
  firmware = c.device.firmware;
  serial = c.device.serial;
  hardware_id = c.device.model;
}

abbrev pub base_url : Host → ℤ → String
base_url host port = "http://" ++ host.join_host_port host.local_addr port

unfoldable pub services : Host → Config → List ServiceDescriptor
services host c =
    record {
      namespace = "http://www.onvif.org/ver10/device/wsdl";
      xaddr = base_url host c.network.http_port ++ "/onvif/device_service";
      major = 2;
      minor = 40;
    }
    ∷ record {
      namespace = "http://www.onvif.org/ver10/media/wsdl";
      xaddr = base_url host c.network.http_port ++ "/onvif/media_service";
      major = 2;
      minor = 40;
    }
    ∷ record {
      namespace = "http://www.onvif.org/ver10/events/wsdl";
      xaddr = base_url host c.network.http_port ++ "/onvif/event_service";
      major = 2;
      minor = 40;
    }
    ∷ []

unfoldable pub get_discovery_mode : Config → String
unfolding text_or
get_discovery_mode c = text_or c.runtime.discovery_mode "Discoverable"

unfoldable pub get_scopes : Config → List ScopeEntry
get_scopes c = map (λ s. record { scope_def = "Configurable"; scope_item = s }) c.device.scopes

abbrev pub get_hostname : Config → String
get_hostname c = c.runtime.hostname

abbrev pub get_dns : Config → DnsConfig
get_dns c = c.runtime.dns

abbrev pub get_network_interfaces : Config → List NetworkInterfaceConfig
get_network_interfaces c = c.runtime.network_interfaces

abbrev pub get_network_protocols : Config → List NetworkProtocol
get_network_protocols c = c.runtime.network_protocols

abbrev pub get_network_default_gateway : Config → DefaultGatewayConfig
get_network_default_gateway c = c.runtime.default_gateway

-- The clock of the host, or the manual time if that is set and parses.
unfoldable pub reported_time : Host → String → String → SystemDateTime
reported_time host date_time_type manual =
    if str_eq manual ""
    then host.now
    else if str_eq date_time_type "Manual"
    then elim (host.parse_rfc3339 manual) [ none ↦ host.now | some t ↦ t ]
    else host.now

unfoldable pub get_system_date_and_time : Host → Config → SystemDateAndTimeInfo
unfolding reported_time text_or
get_system_date_and_time host c = record {
  date_time_type = text_or c.runtime.system_date_and_time.date_time_type "NTP";
  daylight_savings = c.runtime.system_date_and_time.daylight_savings;
  tz = c.runtime.system_date_and_time.tz;
  utc_date_time =
      reported_time host (text_or c.runtime.system_date_and_time.date_time_type "NTP")
        c.runtime.system_date_and_time.manual_date_time_utc;
}

-- The password is not shown.
unfoldable pub get_users : Config → List UserInfo
get_users c =
    map (λ (u : UserConfig). record { username = u.username; password = ""; user_level = u.role })
      c.auth.users
