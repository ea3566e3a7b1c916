-- ===== src/Config/Validate/Runtime.antt =====
-- validateRuntime, validateNetworkInterface, validateEvents and validateLogging.
use onvif_simulator.Prelude.{
  ℕ, ◌+◌, Bool, false, ◌&&◌, ◌||◌, not, Option, none, some, String, List, [], ◌∷◌, map, ◌==◌,
  if◌then◌else◌, str_eq, mem_str,
}
use onvif_simulator.Prelude.Int.{pos, ltb_ℤ}
use onvif_simulator.Text.{codes, trim_space, is_blank, to_lower, to_upper, is_digit, same_text}
use onvif_simulator.Config.Types.{
  NetworkProtocol, NetworkInterfaceIpv4, NetworkInterfaceConfig, RuntimeConfig, TopicConfig,
  EventsConfig, LoggingConfig,
}
use onvif_simulator.Config.Platform.{Platform}
use onvif_simulator.Config.Errors.{
  ConfigError, check, ◌⨾◌, check_all, discovery_mode_invalid, network_protocol_name_empty,
  network_interface_token_required, network_interface_token_duplicate, network_interface_mtu,
  network_interface_hw_address, network_interface_cidr, manual_date_time_invalid,
  events_subscription_timeout_invalid, events_topic_name_empty, events_topic_name_duplicate,
  logging_level_invalid,
}
use onvif_simulator.Config.Validate.Media.{is_some}

module _ (go : Platform) where
  validate_ipv4 : Option NetworkInterfaceIpv4 → Option ConfigError
  validate_ipv4 none = none
  validate_ipv4 (some ip) =
      check_all (λ m. check (not (go.is_cidr m)) network_interface_cidr) ip.manual

  unfoldable pub validate_network_interface :
      List String → NetworkInterfaceConfig → Option ConfigError
  unfolding validate_ipv4
  validate_network_interface seen i =
      check (is_blank i.token) network_interface_token_required
      ⨾ check (mem_str i.token seen) network_interface_token_duplicate
      ⨾ check (ltb_ℤ i.mtu (pos 0) || ltb_ℤ (pos 65535) i.mtu) network_interface_mtu
      ⨾ check (not (str_eq i.hw_address "") && not (go.is_mac i.hw_address))
          network_interface_hw_address
      ⨾ validate_ipv4 i.ipv4

  unfoldable pub validate_network_interfaces :
      List String → List NetworkInterfaceConfig → Option ConfigError
  unfolding validate_network_interface
  validate_network_interfaces seen [] = none
  validate_network_interfaces seen (i ∷ is) =
      let rest = validate_network_interfaces (i.token ∷ seen) is in
      validate_network_interface seen i ⨾ rest

  unfoldable pub validate_runtime : RuntimeConfig → Option ConfigError
  unfolding validate_network_interfaces
  validate_runtime r =
      check
        (not (str_eq r.discovery_mode "")
          && not (mem_str r.discovery_mode ("Discoverable" ∷ "NonDiscoverable" ∷ [])))
        discovery_mode_invalid
      ⨾ check_all (λ (p : NetworkProtocol). check (is_blank p.name) network_protocol_name_empty)
          r.network_protocols
      ⨾ validate_network_interfaces [] r.network_interfaces
      ⨾ check
          (not (str_eq r.system_date_and_time.manual_date_time_utc "")
            && not (go.is_rfc3339 r.system_date_and_time.manual_date_time_utc))
          manual_date_time_invalid

-- The token loop of validatePTDuration: `count` digits of the present token are read.
unfoldable pub pt_loop : ℕ → List ℕ → Bool
pt_loop count [] = count == 0
pt_loop count (c ∷ rest) =
    let more = pt_loop (count + 1) rest in
    let next = pt_loop 0 rest in
    if is_digit c then more else not (count == 0) && (c == b'H' || c == b'M' || c == b'S') && next

unfoldable pub validate_pt_duration : List ℕ → Bool
unfolding pt_loop
validate_pt_duration [] = false
validate_pt_duration (c ∷ rest) = pt_loop 0 (c ∷ rest)

-- The test on the text behind "PT", if it begins so.
unfoldable pub pt_text : List ℕ → Bool
unfolding validate_pt_duration
pt_text (p ∷ t ∷ rest) = p == b'P' && t == b'T' && validate_pt_duration rest
pt_text _ = false

unfoldable pub is_valid_subscription_timeout : Platform → String → Bool
unfolding pt_text
is_valid_subscription_timeout go s =
    is_some (go.parse_duration s) || pt_text (map to_upper (codes s))

unfoldable pub validate_topics : List String → List TopicConfig → Option ConfigError
validate_topics seen [] = none
validate_topics seen (t ∷ ts) =
    let rest = validate_topics (t.name ∷ seen) ts in
    check (is_blank t.name) events_topic_name_empty
    ⨾ check (mem_str t.name seen) events_topic_name_duplicate
    ⨾ rest

unfoldable pub validate_events : Platform → EventsConfig → Option ConfigError
unfolding is_valid_subscription_timeout validate_topics
validate_events go e =
    check
      (not (str_eq e.subscription_timeout "")
        && not (is_valid_subscription_timeout go e.subscription_timeout))
      events_subscription_timeout_invalid
    ⨾ validate_topics [] e.topics

unfoldable pub is_log_level : List ℕ → Bool
is_log_level l =
    same_text l []
    || same_text l (codes "debug")
    || same_text l (codes "info")
    || same_text l (codes "warn")
    || same_text l (codes "error")

unfoldable pub validate_logging : LoggingConfig → Option ConfigError
unfolding is_log_level
validate_logging l =
    check (not (is_log_level (map to_lower (trim_space (codes l.level))))) logging_level_invalid
