-- ===== src/Config/Validate.antt =====
-- config.go's `Validate`: the checks in the order of the source, each with its sentinel error. The
-- texts that wrap an error with a position are left out.
pub mod Device
pub mod Media
pub mod Auth
pub mod Runtime
pub mod Uniqueness
pub mod Weakening
pub mod Ports
pub mod Sections
use onvif_simulator.Prelude.{
  Bool, true, false, ◌||◌, not, Option, none, some, String, List, [], ◌∷◌, ite, str_dec,
  if◌then◌else◌,
}
use onvif_simulator.Prelude.Int.{ℤ, pos, eq_ℤ}
use onvif_simulator.Config.Errors.{ConfigError, invalid_version, check, ◌⨾◌}
use onvif_simulator.Config.Types.{Config}
use onvif_simulator.Config.Platform.{Platform}
use Device.{validate_device, validate_network}
use Media.{validate_media}
use Auth.{validate_auth}
use Runtime.{validate_runtime, validate_events, validate_logging}

abbrev pub current_version : ℤ
current_version = pos 1

unfoldable pub validate : Platform → Config → Option ConfigError
validate go c =
    check (not (eq_ℤ c.version current_version)) invalid_version
    ⨾ validate_device go c.device
    ⨾ validate_network go c.network
    ⨾ validate_media go c.media
    ⨾ validate_auth go c.auth
    ⨾ validate_runtime go c.runtime
    ⨾ validate_events go c.events
    ⨾ validate_logging c.logging
