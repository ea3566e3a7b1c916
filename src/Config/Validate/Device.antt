-- ===== src/Config/Validate/Device.antt =====
-- validateDevice, validateScopes, validateNetwork and validateXAddr.
use onvif_simulator.Prelude.{
  ℕ, ◌+◌, Bool, true, false, ◌&&◌, ◌||◌, not, Option, none, some, String, List, [], ◌∷◌, map, leb,
  ◌==◌, if◌then◌else◌,
}
use onvif_simulator.Prelude.Int.{ℤ, pos, ltb_ℤ, eq_ℤ}
use onvif_simulator.Text.{codes, trim_space, is_blank, to_lower, is_digit, same_text, begins_with}
use onvif_simulator.Config.Types.{DeviceConfig, NetworkConfig}
use onvif_simulator.Config.Platform.{Platform, Url}
use onvif_simulator.Config.Errors.{
  ConfigError, check, ◌⨾◌, check_all, device_uuid_required, device_uuid_invalid,
  device_field_required, scope_entry_empty, scope_unparsable, scope_not_absolute,
  scope_onvif_prefix, scope_http_host, network_port_invalid, network_rtsp_port_invalid,
  network_port_conflict, xaddr_field_empty, xaddr_invalid, xaddr_scheme, xaddr_host,
}

abbrev is_empty : List ℕ → Bool
is_empty [] = true
is_empty (c ∷ cs) = false

ascii_lower : ℕ → ℕ
ascii_lower c = if leb b'A' c && leb c b'Z' then c + 32 else c

unfoldable pub is_hex : ℕ → Bool
is_hex c = is_digit c || (leb b'a' c && leb c b'f')

-- One character of `uuidURNPattern`, where `x` stands for `[0-9a-f]`; the pattern ignores case.
unfoldable pub fits_char : ℕ → ℕ → Bool
unfolding ascii_lower is_hex
fits_char p c = let d = ascii_lower c in if p == b'x' then is_hex d else d == p

unfoldable pub fits : List ℕ → List ℕ → Bool
fits [] [] = true
fits (p ∷ ps) (c ∷ cs) = fits_char p c && fits ps cs
fits _ _ = false

abbrev pub uuid_urn_pattern : List ℕ
uuid_urn_pattern = codes "urn:uuid:xxxxxxxx-xxxx-xxxx-xxxx-xxxxxxxxxxxx"

module _ (go : Platform) where
  unfoldable pub validate_scope_url : List ℕ → Url → Option ConfigError
  validate_scope_url raw u =
      let scheme = map to_lower u.scheme in
      check (is_empty u.scheme) scope_not_absolute
      ⨾ (if same_text scheme (codes "onvif")
          then check (not (begins_with (map to_lower raw) (codes "onvif://www.onvif.org/")))
              scope_onvif_prefix
          else check
              ((same_text scheme (codes "http") || same_text scheme (codes "https"))
                && is_empty u.host)
              scope_http_host)

  unfoldable pub validate_scope : String → Option ConfigError
  unfolding validate_scope_url
  validate_scope s =
      let raw = trim_space (codes s) in
      check (is_empty raw) scope_entry_empty ⨾ (elim (go.parse_url raw) [
        | none ↦ some scope_unparsable
        | some u ↦ validate_scope_url raw u
      ])

  unfoldable pub validate_scopes : List String → Option ConfigError
  unfolding validate_scope
  validate_scopes = check_all validate_scope

  unfoldable pub validate_device : DeviceConfig → Option ConfigError
  unfolding fits validate_scopes
  validate_device d =
      check (is_blank d.uuid) device_uuid_required
      ⨾ check (not (fits uuid_urn_pattern (trim_space (codes d.uuid)))) device_uuid_invalid
      ⨾ check (is_blank d.manufacturer) device_field_required
      ⨾ check (is_blank d.model) device_field_required
      ⨾ check (is_blank d.serial) device_field_required
      ⨾ validate_scopes d.scopes

  unfoldable pub validate_xaddr : List ℕ → Option ConfigError
  validate_xaddr raw = check (is_empty raw) xaddr_field_empty ⨾ (elim (go.parse_url raw) [
    | none ↦ some xaddr_invalid
    | some u ↦
        check (not (same_text u.scheme (codes "http") || same_text u.scheme (codes "https")))
          xaddr_scheme
        ⨾ check (is_empty u.host) xaddr_host
  ])

abbrev pub default_rtsp_port : ℤ
default_rtsp_port = pos 8554

unfoldable pub rtsp_port_or_default : NetworkConfig → ℤ
rtsp_port_or_default n = if eq_ℤ n.rtsp_port (pos 0) then default_rtsp_port else n.rtsp_port

unfoldable pub validate_network : Platform → NetworkConfig → Option ConfigError
unfolding rtsp_port_or_default
validate_network go n =
    check (ltb_ℤ n.http_port (pos 1) || ltb_ℤ (pos 65535) n.http_port) network_port_invalid
    ⨾ check (ltb_ℤ n.rtsp_port (pos 0) || ltb_ℤ (pos 65535) n.rtsp_port) network_rtsp_port_invalid
    ⨾ check (eq_ℤ (rtsp_port_or_default n) n.http_port) network_port_conflict
    ⨾ check_all (λ x. validate_xaddr go (trim_space (codes x))) n.xaddrs
