-- ===== src/Simulator/Triggers/Laws.antt =====
-- A trigger publishes and records, or does neither, by the one word of the broker.
use onvif_simulator.Prelude.{
  ℕ, Bool, true, false, String, List, [], ◌∷◌, map, if◌then◌else◌, ◌≡◌, refl, sym, ap, ◌∙◌, arith,
}
use onvif_simulator.Config.Types
use onvif_simulator.Event.Broker.{PushDispatch, publish, topic_enabled}
use onvif_simulator.Simulator.{broker_topic}
use onvif_simulator.Simulator.AuthChain.{KeyLibrary}
use onvif_simulator.Simulator.Ring.{EventRecord, push}
use onvif_simulator.Simulator.State.{Simulator}
use onvif_simulator.Simulator.Triggers.{
  Markup, Clock, Trigger, motion, image_too_blurry, image_too_dark, image_too_bright, digital_input,
  sync_property, publish_raw, changed, initialized, bool_property_message, format_bool, topic_of,
  message_of, source_of, payload_of, record_of, config_topic_enabled, trigger,
}

-- A published event: its topic, its message, and the source and the text of the record.
pub record PublishedEvent : Type 0 where
  pub topic : String
  pub message : String
  pub source : String
  pub payload : String

-- The text of a state that was triggered, and of one that was synchronized.
abbrev state_text : Bool → String
state_text true = "state=true"
state_text false = "state=false"

abbrev sync_text : Bool → String
sync_text true = "sync state=true"
sync_text false = "sync state=false"

-- A change of a Boolean property of the Video Source service.
abbrev pub video_event : Markup → ℕ → String → String → Bool → PublishedEvent
video_event m now topic source state = record {
  topic = topic;
  message =
      bool_property_message m now source "VideoSourceConfigurationToken" "State" state changed;
  source = source;
  payload = state_text state;
}

-- The event that each call stands for in ONVIF's topic set, with the message built at `now`.
pub data Announces (m : Markup) (now : ℕ) : Trigger → PublishedEvent → Type 0 where
  motion_alarm :
      (source : String) (state : Bool)
      → Announces m now
          (motion source state)
          (video_event m now "tns1:VideoSource/MotionAlarm" source state)
  too_blurry :
      (source : String) (state : Bool)
      → Announces m now
          (image_too_blurry source state)
          (video_event m now "tns1:VideoSource/ImageTooBlurry" source state)
  too_dark :
      (source : String) (state : Bool)
      → Announces m now
          (image_too_dark source state)
          (video_event m now "tns1:VideoSource/ImageTooDark" source state)
  too_bright :
      (source : String) (state : Bool)
      → Announces m now
          (image_too_bright source state)
          (video_event m now "tns1:VideoSource/ImageTooBright" source state)
  input_changed :
      (input : String) (state : Bool)
      → Announces m now (digital_input input state) (record {
        topic = "tns1:Device/Trigger/DigitalInput";
        message = bool_property_message m now input "InputToken" "LogicalState" state changed;
        source = input;
        payload = state_text state;
      })
  synchronized :
      (topic item source data_item : String) (state : Bool)
      → Announces m now (sync_property topic item source data_item state) (record {
        topic = topic;
        message = bool_property_message m now source item data_item state initialized;
        source = source;
        payload = sync_text state;
      })
  raw :
      (topic message : String)
      → Announces m now
          (publish_raw topic message)
          (record { topic = topic; message = message; source = ""; payload = "raw" })

same_topics :
    (topic : String) (ts : List Types.TopicConfig)
    → topic_enabled topic (map broker_topic ts) ≡ config_topic_enabled topic ts
unfolding topic_enabled config_topic_enabled broker_topic
same_topics topic [] = refl
same_topics topic (t ∷ ts) = ground (arith, same_topics topic ts)

state_payload : (state : Bool) → payload_of (motion "" state) ≡ state_text state
unfolding payload_of format_bool
state_payload true = refl
state_payload false = refl

sync_payload : (state : Bool) → payload_of (sync_property "" "" "" "" state) ≡ sync_text state
unfolding payload_of format_bool
sync_payload true = refl
sync_payload false = refl

-- What the source says of a trigger is the event that it stands for.
abbrev Means : Markup → ℕ → Trigger → PublishedEvent → Type 0
Means m now t e =
    record {
      topic = topic_of t;
      message = message_of m now t;
      source = source_of t;
      payload = payload_of t;
    }
    ≡ e

abbrev with_payload : String → String → String → String → PublishedEvent
with_payload topic message source payload = record {
  topic = topic;
  message = message;
  source = source;
  payload = payload;
}

announced :
    (m : Markup) (now : ℕ) (t : Trigger) (e : PublishedEvent)
    → Announces m now t e
    → Means m now t e
unfolding topic_of message_of source_of payload_of
announced m now _ _ (motion_alarm source state) = ap (with_payload _ _ source) (state_payload state)
announced m now _ _ (too_blurry source state) = ap (with_payload _ _ source) (state_payload state)
announced m now _ _ (too_dark source state) = ap (with_payload _ _ source) (state_payload state)
announced m now _ _ (too_bright source state) = ap (with_payload _ _ source) (state_payload state)
announced m now _ _ (input_changed input state) = ap (with_payload _ _ input) (state_payload state)
announced m now _ _ (synchronized topic item source data_item state) =
    ap (with_payload _ _ source) (sync_payload state)
announced m now _ _ (raw topic message) = refl

module _ {Bytes : Type 0} {lib : KeyLibrary} where
  -- The event is published, and recorded if the broker's settings have its topic enabled.
  abbrev pub published_event :
      Clock
      → PublishedEvent
      → Simulator Bytes lib
      → Simulator Bytes lib × List PushDispatch × List EventRecord
  published_event clock e s =
      let published = publish clock.published_at e.topic e.message s.broker in
      let on = topic_enabled e.topic s.broker.cfg.topics in
      let r : EventRecord = record {
        time = clock.recorded_at;
        topic = e.topic;
        source = e.source;
        payload = e.payload;
      } in
      (
        record s { broker = published.0; ring = if on then push r s.ring else s.ring },
        published.1,
        (if on then r ∷ [] else []),
      )

  published :
      (m : Markup) (clock : Clock) (t : Trigger) (s : Simulator Bytes lib)
      → config_topic_enabled (topic_of t) s.cfg.events.topics
        ≡ topic_enabled (topic_of t) s.broker.cfg.topics
      → trigger m clock t s
        ≡ published_event clock
            (with_payload (topic_of t) (message_of m clock.built_at t) (source_of t) (payload_of t))
            s
  unfolding trigger publish record_of
  published m clock t s h = ground (arith, h)

  -- While the topics of the broker are those of the configuration, each call that triggers an event
  -- has the broker publish the event that the call stands for, MotionAlarm, ImageTooBlurry,
  -- ImageTooDark, ImageTooBright or DigitalInput with its own topic and message, or the one that it
  -- is given; and it records that event exactly if the broker's settings have its topic enabled.
  -- Otherwise nothing at all changes.
  pub trigger-publishes :
      (m : Markup) (clock : Clock) (t : Trigger) (e : PublishedEvent) (s : Simulator Bytes lib)
      → s.broker.cfg.topics ≡ map broker_topic s.cfg.events.topics
      → Announces m clock.built_at t e
      → trigger m clock t s ≡ published_event clock e s
  trigger-publishes m clock t e s i a =
      published m clock t s (
        sym (same_topics (topic_of t) s.cfg.events.topics)
        ∙ ap (topic_enabled (topic_of t)) (sym i))
      ∙ ap (λ x. published_event clock x s) (announced m clock.built_at t e a)
