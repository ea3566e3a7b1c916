-- ===== src/Simulator/Laws.antt =====
-- A topic that is switched in the configuration is switched in the broker.
use onvif_simulator.Prelude.{
  Bool, true, false, String, List, [], ◌∷◌, map, ◌≡◌, refl, ite, str_dec, if◌then◌else◌, arith,
}
use onvif_simulator.Config.Types
use onvif_simulator.Config.Types.{Config}
use onvif_simulator.Config.Platform.{Platform}
use onvif_simulator.Config.Update.{
  Mutated, changed, refused, topic_key, topic_not_found, with_topics,
}
use onvif_simulator.Config.Update.Keyed.{has_key, modify_first}
use onvif_simulator.Config.Update.Runtime.{set_topic_enabled}
use onvif_simulator.Event.Broker.{topic_enabled}
use onvif_simulator.Simulator.{broker_topic, broker_config_from_config}

-- What the broker would publish under each outcome of a switch: the new flag for that topic and
-- the old one for every other; of a refused switch, that the topic is not published.
unfoldable pub IsSeen : Platform → Config → String → Bool → String → Mutated → Type 0
IsSeen go c name b n (changed c') =
    topic_enabled n (broker_config_from_config go c').topics
    ≡ ite (str_dec name n) b (topic_enabled n (broker_config_from_config go c).topics)
IsSeen go c name b n (refused e) =
    topic_enabled name (broker_config_from_config go c).topics ≡ false

switched :
    (name : String) (b : Bool) (n : String) (ts : List Types.TopicConfig)
    → has_key topic_key name ts ≡ true
    → topic_enabled n (
        map broker_topic
          (modify_first topic_key (λ (t : Types.TopicConfig). record t { enabled = b }) name ts))
      ≡ ite (str_dec name n) b (topic_enabled n (map broker_topic ts))
unfolding has_key modify_first topic_enabled broker_topic
switched name b n [] h = absurd (ground (arith, h))
switched name b n (t ∷ ts) h = ground (arith, h, switched name b n ts)

missing :
    (name : String) (ts : List Types.TopicConfig)
    → has_key topic_key name ts ≡ false
    → topic_enabled name (map broker_topic ts) ≡ false
unfolding has_key topic_enabled broker_topic
missing name [] h = refl
missing name (t ∷ ts) h = ground (arith, h, missing name ts)

switch_cases :
    (go : Platform) (c : Config) (name : String) (b : Bool) (n : String) (present : Bool)
    → has_key topic_key name c.events.topics ≡ present
    → IsSeen go c name b n (
        if present
        then changed (
            with_topics c (
              modify_first topic_key
                (λ (t : Types.TopicConfig). record t { enabled = b })
                name
                c.events.topics))
        else refused topic_not_found)
unfolding IsSeen broker_config_from_config
switch_cases go c name b n true h = switched name b n c.events.topics h
switch_cases go c name b n false h = missing name c.events.topics h

-- After SetTopicEnabled the broker that gets the new configuration publishes that topic by the new
-- flag and every other one as before; a refused call means that the broker did not publish it.
pub set_topic_enabled-IsSeen :
    (go : Platform) (c : Config) (name : String) (b : Bool) (n : String)
    → IsSeen go c name b n (set_topic_enabled name b c)
unfolding set_topic_enabled
set_topic_enabled-IsSeen go c name b n =
    switch_cases go c name b n (has_key topic_key name c.events.topics) refl
