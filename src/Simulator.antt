-- ===== src/Simulator.antt =====
-- internal/simulator/simulator.go: the configuration that the simulator hands to the event broker.
pub mod Laws
pub mod Ring
pub mod AuthChain
pub mod State
pub mod Mutators
pub mod Triggers
pub mod Profiles
pub mod Lifecycle
pub mod Device
pub mod Media
mod Samples
mod Tests
use onvif_simulator.Prelude.{
  Bool, true, false, Option, none, some, String, List, [], ◌∷◌, map, if◌then◌else◌, str_eq,
}
use onvif_simulator.Prelude.Int.{ℤ, pos, ltb_ℤ}
use onvif_simulator.Config.Types
use onvif_simulator.Config.Types.{Config}
use onvif_simulator.Config.Platform.{Platform}
use onvif_simulator.Event.Broker.{BrokerConfig, TopicConfig}
use onvif_simulator.Event.Duration.{hour}

unfoldable pub broker_topic : Types.TopicConfig → TopicConfig
broker_topic t = record { name = t.name; enabled = t.enabled }

-- event.DefaultSubscriptionTimeout
abbrev pub default_subscription_timeout : ℤ
default_subscription_timeout = pos hour

-- A duration that parses and is positive. An empty text is not parsed.
unfoldable pub timeout_or_default : Option ℤ → ℤ
timeout_or_default none = default_subscription_timeout
timeout_or_default (some d) = if ltb_ℤ (pos 0) d then d else default_subscription_timeout

unfoldable pub broker_config_from_config : Platform → Config → BrokerConfig
unfolding broker_topic timeout_or_default
broker_config_from_config go c = record {
  max_pull_points = c.events.max_pull_points;
  max_notification_producers = c.events.max_notification_producers;
  notify_failure_threshold = pos 0;
  notify_timeout = pos 0;
  subscription_timeout = timeout_or_default (
      if str_eq c.events.subscription_timeout ""
      then none
      else go.parse_duration c.events.subscription_timeout);
  topics = map broker_topic c.events.topics;
  subscription_manager_addr = "";
}
