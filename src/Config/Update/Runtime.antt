-- ===== src/Config/Update/Runtime.antt =====
-- update.go: the helpers on the runtime settings, the metadata configurations and the topics.
use onvif_simulator.Prelude.{Bool, String, List, [], ◌∷◌, ◌++◌, if◌then◌else◌}
use onvif_simulator.Config.Types.{
  Config, DnsConfig, DefaultGatewayConfig, NetworkProtocol, NetworkInterfaceConfig,
  SystemDateTimeConfig, MetadataConfig, TopicConfig, RuntimeConfig,
}
use onvif_simulator.Config.Update.{
  Mutated, changed, refused, metadata_already_exists, metadata_not_found, topic_not_found,
  metadata_key, topic_key, with_metadata, with_topics,
}
use onvif_simulator.Config.Update.Keyed.{has_key, without_key, modify_first}

abbrev with_runtime : Config → RuntimeConfig → Config
with_runtime c r = record c { runtime = r }

unfoldable pub set_discovery_mode : String → Config → Mutated
set_discovery_mode mode c = changed (with_runtime c (record c.runtime { discovery_mode = mode }))

unfoldable pub set_hostname : String → Config → Mutated
set_hostname name c = changed (with_runtime c (record c.runtime { hostname = name }))

unfoldable pub set_dns : DnsConfig → Config → Mutated
set_dns d c = changed (with_runtime c (record c.runtime { dns = d }))

unfoldable pub set_default_gateway : DefaultGatewayConfig → Config → Mutated
set_default_gateway g c = changed (with_runtime c (record c.runtime { default_gateway = g }))

unfoldable pub set_network_protocols : List NetworkProtocol → Config → Mutated
set_network_protocols ps c = changed (with_runtime c (record c.runtime { network_protocols = ps }))

unfoldable pub set_network_interfaces : List NetworkInterfaceConfig → Config → Mutated
set_network_interfaces is c =
    changed (with_runtime c (record c.runtime { network_interfaces = is }))

unfoldable pub set_system_date_and_time : SystemDateTimeConfig → Config → Mutated
set_system_date_and_time t c =
    changed (with_runtime c (record c.runtime { system_date_and_time = t }))

unfoldable pub add_metadata_config : MetadataConfig → Config → Mutated
unfolding has_key
add_metadata_config m c =
    if has_key metadata_key m.token c.media.metadata_configurations
    then refused metadata_already_exists
    else changed (with_metadata c (c.media.metadata_configurations ++ (m ∷ [])))

unfoldable pub remove_metadata_config : String → Config → Mutated
unfolding has_key without_key
remove_metadata_config token c =
    if has_key metadata_key token c.media.metadata_configurations
    then changed (with_metadata c (without_key metadata_key token c.media.metadata_configurations))
    else refused metadata_not_found

unfoldable pub upsert_metadata_config : MetadataConfig → Config → Mutated
unfolding has_key modify_first
upsert_metadata_config m c =
    if has_key metadata_key m.token c.media.metadata_configurations
    then changed (
        with_metadata c
          (modify_first metadata_key (λ old. m) m.token c.media.metadata_configurations))
    else changed (with_metadata c (c.media.metadata_configurations ++ (m ∷ [])))

unfoldable pub set_events_topics : List TopicConfig → Config → Mutated
set_events_topics ts c = changed (with_topics c ts)

unfoldable pub set_topic_enabled : String → Bool → Config → Mutated
unfolding has_key modify_first
set_topic_enabled name b c =
    if has_key topic_key name c.events.topics
    then changed (
        with_topics c (
          modify_first topic_key (λ (t : TopicConfig). record t { enabled = b }) name
            c.events.topics))
    else refused topic_not_found
