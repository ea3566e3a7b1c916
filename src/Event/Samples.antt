-- ===== src/Event/Samples.antt =====
-- Concrete inputs for the tests: a platform, a configuration, a history and a broker's state.
use Prim.Native.String.{◌++◌}
use onvif_simulator.Prelude.{ℕ, String, true, false, none, some, List, [], ◌∷◌, ite, str_dec}
use onvif_simulator.Prelude.Int.{pos}
use onvif_simulator.Event.Subscription.{
  Subscription, NotificationMessage, sub_kind_pull, sub_kind_push,
}
use onvif_simulator.Event.Broker.{Broker, BrokerConfig, Go, message_for}
use onvif_simulator.Event.Broker.Requests.{Readings, SubscribeParams}
use onvif_simulator.Event.Broker.Step.{
  Call, publishes, notifies, creates, subscribes, pulls, renews, unsubscribes, ticks, starts,
}

-- Parsers that read one duration, no absolute time, and take every address for an http one.
abbrev pub toy_go : Go
toy_go = record {
  time = record {
    parse_duration = λ s. ite (str_dec s "30s") (some (pos 30000000000)) none;
    parse_time = λ l s. none;
  };
  parse_request_uri = λ s. some (record { scheme = "http"; host = s });
  set_query_id = λ base id. some (base ++ ("?id=" ++ id));
  query_escape = λ s. s;
}

abbrev pub motion : String
motion = "tns1:VideoSource/MotionAlarm"

abbrev pub sample_config : BrokerConfig
sample_config = record {
  max_pull_points = pos 1;
  max_notification_producers = pos 2;
  notify_failure_threshold = pos 3;
  notify_timeout = pos 0;
  subscription_timeout = pos 3600000000000;
  topics =
      record { name = motion; enabled = true }
      ∷ record { name = "tns1:Device"; enabled = false }
      ∷ [];
  subscription_manager_addr = "http://cam/sub";
}

abbrev pub at_time : ℕ → String → Readings
at_time t id = record { at_reap = t; at_parse = t; now = t; fresh_id = some id }

abbrev pub viewer : SubscribeParams
viewer = record {
  consumer_address = "http://viewer/notify";
  consumer_reference_params = "";
  filter = "";
  initial_termination_time = "";
}

abbrev pub sample_history : List Call
sample_history =
    starts
    ∷ creates (at_time 100 "a") "tns1:VideoSource" "30s"
    ∷ creates (at_time 101 "b") "" ""
    ∷ subscribes (at_time 102 "c") viewer
    ∷ publishes 103 motion "m1"
    ∷ notifies 104 "c" false
    ∷ pulls 105 "a" (pos 1)
    ∷ renews (at_time 106 "") "a" "30s"
    ∷ ticks 200
    ∷ unsubscribes 201 "c"
    ∷ []

-- The first pull point, as it is while the history runs.
abbrev pub first_pull : Subscription
first_pull = record {
  id = "a";
  address = "http://cam/sub?id=a";
  filter = "tns1:VideoSource";
  termination_time = 30000000100;
  queue = [];
  kind = sub_kind_pull;
  consumer = record { address = ""; reference_params = "" };
  notify_failures = 0;
}

abbrev pub push_sub : Subscription
push_sub = record {
  id = "c";
  address = "http://cam/sub?id=c";
  filter = "";
  termination_time = 3600000000102;
  queue = [];
  kind = sub_kind_push;
  consumer = record { address = "http://viewer/notify"; reference_params = "" };
  notify_failures = 0;
}

abbrev pub two_subs : Broker
two_subs = record {
  cfg = sample_config;
  subs = ("a", first_pull) ∷ ("c", push_sub) ∷ [];
  notify = record { timeout = pos 5000000000 };
  started = true;
  stopped = false;
}

abbrev pub first_message : NotificationMessage
first_message = message_for first_pull motion "m1"
