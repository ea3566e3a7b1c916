-- ===== src/Simulator/Triggers.antt =====
-- internal/simulator/triggers.go and internal/event/messages.go: the events that a front end
-- triggers. Each is published by the broker and recorded, or neither.
pub mod Laws
use Prim.Native.String.{◌++◌}
use onvif_simulator.Prelude.{
  ℕ, Bool, true, false, String, List, [], ◌∷◌, if◌then◌else◌, ite, str_dec,
}
use onvif_simulator.Config.Types
use onvif_simulator.Event.Broker.{Broker, PushDispatch, publish}
use onvif_simulator.Simulator.AuthChain.{KeyLibrary}
use onvif_simulator.Simulator.Ring.{EventRecord, push}
use onvif_simulator.Simulator.State.{Simulator}

-- html.EscapeString, and a time in UTC by the layout time.RFC3339.
pub record Markup : Type 0 where
  pub escape_string : String → String
  pub format_time : ℕ → String

-- The readings of the clock: for the message, for the broker and for the record.
pub record Clock : Type 0 where
  pub built_at : ℕ
  pub published_at : ℕ
  pub recorded_at : ℕ

-- PropertyDeleted is never sent.
pub data PropertyType : Type 0 where
  changed initialized deleted : PropertyType

unfoldable pub property_text : PropertyType → String
property_text changed = "Changed"
property_text initialized = "Initialized"
property_text deleted = "Deleted"

unfoldable pub format_bool : Bool → String
format_bool b = if b then "true" else "false"

unfoldable pub bool_property_message :
    Markup → ℕ → String → String → String → Bool → PropertyType → String
unfolding property_text format_bool
bool_property_message m now source_value source_item_name data_item_name state pt =
    "<tt:Message xmlns:tt=\"http://www.onvif.org/ver10/schema\" UtcTime=\""
    ++ (m.format_time now
        ++ ("\" PropertyType=\""
            ++ (property_text pt
                ++ ("\"><tt:Source><tt:SimpleItem Name=\""
                    ++ (m.escape_string source_item_name
                        ++ ("\" Value=\""
                            ++ (m.escape_string source_value
                                ++ ("\"/></tt:Source><tt:Data><tt:SimpleItem Name=\""
                                    ++ (m.escape_string data_item_name
                                        ++ ("\" Value=\""
                                            ++ (format_bool state
                                                ++ "\"/></tt:Data></tt:Message>")))))))))))

-- The calls of the front ends with their arguments.
pub data Trigger : Type 0 where
  motion image_too_blurry image_too_dark image_too_bright digital_input : String → Bool → Trigger
  sync_property : String → String → String → String → Bool → Trigger
  publish_raw : String → String → Trigger

unfoldable pub topic_of : Trigger → String
topic_of (motion source state) = "tns1:VideoSource/MotionAlarm"
topic_of (image_too_blurry source state) = "tns1:VideoSource/ImageTooBlurry"
topic_of (image_too_dark source state) = "tns1:VideoSource/ImageTooDark"
topic_of (image_too_bright source state) = "tns1:VideoSource/ImageTooBright"
topic_of (digital_input input state) = "tns1:Device/Trigger/DigitalInput"
topic_of (sync_property topic item source data_item state) = topic
topic_of (publish_raw topic message) = topic

-- MotionAlarm and the other methods of the broker, each of which publishes one message.
unfoldable pub message_of : Markup → ℕ → Trigger → String
unfolding bool_property_message
message_of m now (motion source state) =
    bool_property_message m now source "VideoSourceConfigurationToken" "State" state changed
message_of m now (image_too_blurry source state) =
    bool_property_message m now source "VideoSourceConfigurationToken" "State" state changed
message_of m now (image_too_dark source state) =
    bool_property_message m now source "VideoSourceConfigurationToken" "State" state changed
message_of m now (image_too_bright source state) =
    bool_property_message m now source "VideoSourceConfigurationToken" "State" state changed
message_of m now (digital_input input state) =
    bool_property_message m now input "InputToken" "LogicalState" state changed
message_of m now (sync_property topic item source data_item state) =
    bool_property_message m now source item data_item state initialized
message_of m now (publish_raw topic message) = message

unfoldable pub source_of : Trigger → String
source_of (motion source state) = source
source_of (image_too_blurry source state) = source
source_of (image_too_dark source state) = source
source_of (image_too_bright source state) = source
source_of (digital_input input state) = input
source_of (sync_property topic item source data_item state) = source
source_of (publish_raw topic message) = ""

unfoldable pub payload_of : Trigger → String
unfolding format_bool
payload_of (motion source state) = "state=" ++ format_bool state
payload_of (image_too_blurry source state) = "state=" ++ format_bool state
payload_of (image_too_dark source state) = "state=" ++ format_bool state
payload_of (image_too_bright source state) = "state=" ++ format_bool state
payload_of (digital_input input state) = "state=" ++ format_bool state
payload_of (sync_property topic item source data_item state) = "sync state=" ++ format_bool state
payload_of (publish_raw topic message) = "raw"

-- Simulator.topicEnabled: the first topic of that name decides.
unfoldable pub config_topic_enabled : String → List Types.TopicConfig → Bool
config_topic_enabled topic [] = false
config_topic_enabled topic (t ∷ ts) =
    ite (str_dec t.name topic) t.enabled (config_topic_enabled topic ts)

-- recordEvent's record.
unfoldable pub record_of : Clock → Trigger → EventRecord
unfolding topic_of source_of payload_of
record_of clock t = record {
  time = clock.recorded_at;
  topic = topic_of t;
  source = source_of t;
  payload = payload_of t;
}

module _ {Bytes : Type 0} {lib : KeyLibrary} where
  -- A call: the next state, the pushes that the broker sends, and the records that OnEvent gets.
  unfoldable pub trigger :
      Markup
      → Clock
      → Trigger
      → Simulator Bytes lib
      → Simulator Bytes lib × List PushDispatch × List EventRecord
  unfolding config_topic_enabled publish message_of record_of push topic_of
  trigger m clock t s =
      let published =
        publish clock.published_at (topic_of t) (message_of m clock.built_at t) s.broker in
      if config_topic_enabled (topic_of t) s.cfg.events.topics
      then (
        record s { broker = published.0; ring = push (record_of clock t) s.ring },
        published.1,
        record_of clock t ∷ [],
      )
      else (s, [], [])
