-- ===== src/Event/Broker.antt =====
-- internal/event/broker.go: the broker's state, its configuration and its operations. Each
-- operation is one critical section of the broker's mutex: it takes the readings of the clock and
-- the random identifier that it draws, and returns the next state with its result.
pub mod Requests
pub mod Cases
pub mod Step
pub mod Invariant
pub mod Delivery
pub mod Lifetime
pub mod Failures
use Prim.Native.String.{◌++◌}
use onvif_simulator.Prelude.{
  ℕ, suc, ◌+◌, ◌-◌, ◌*◌, String, Bool, true, false, ◌&&◌, not, Option, none, some, List, [], ◌∷◌,
  map, ltb, leb, ◌==◌, if◌then◌else◌, ite, str_dec, str_eq,
}
use onvif_simulator.Prelude.Int.{ℤ, pos, negsuc, ltb_ℤ, leb_ℤ}
use onvif_simulator.Prelude.Dict.{Dict, lookup, insert, delete, retain, update_all, count_if}
use onvif_simulator.Event.Duration.{
  GoTime, Parsed, DurationError, hour, second, parse_iso8601_duration,
}
use onvif_simulator.Event.Duration
use onvif_simulator.Event.Subscription.{
  Subscription, SubKind, sub_kind_pull, sub_kind_push, ConsumerEpr, NotificationMessage, enqueue,
  drain, matches_topic,
}

pub record TopicConfig : Type 0 where
  pub name : String
  pub enabled : Bool

-- The logger of the source is left out.
pub record BrokerConfig : Type 0 where
  pub max_pull_points : ℤ
  pub max_notification_producers : ℤ
  pub notify_failure_threshold : ℤ
  pub notify_timeout : ℤ
  pub subscription_timeout : ℤ
  pub topics : List TopicConfig
  pub subscription_manager_addr : String

-- The client timeout of the notifier that `newNotifier` builds.
pub record Notifier : Type 0 where
  pub timeout : ℤ

pub record Broker : Type 0 where
  pub cfg : BrokerConfig
  pub subs : Dict Subscription
  pub notify : Notifier
  pub started : Bool
  pub stopped : Bool

pub record RequestUri : Type 0 where
  pub scheme : String
  pub host : String

-- What the broker calls of Go's packages `time` and `net/url`. `set_query_id base id` is
-- `url.Parse(base)` with the query value `id` set, printed again, or `none` on a parse error.
pub record Go : Type 0 where
  pub time : GoTime
  pub parse_request_uri : String → Option RequestUri
  pub set_query_id : String → String → Option String
  pub query_escape : String → String

pub data BrokerError : Type 0 where
  max_pull_points_reached max_notification_producers_reached : BrokerError
  notification_producer_disabled subscription_not_found invalid_args : BrokerError
  invalid_termination_time : DurationError → BrokerError
  no_random_source : BrokerError

pub data Result {ℓ} (A : Type ℓ) : Type ℓ where
  ok : A → Result A
  err : BrokerError → Result A

abbrev default_notify_timeout : ℤ
default_notify_timeout = pos (5 * second)

new_notifier : ℤ → Notifier
new_notifier t = record { timeout = if leb_ℤ t (pos 0) then default_notify_timeout else t }

-- A limit or a duration that is not positive becomes the default.
or_default : ℤ → ℤ → ℤ
or_default v d = if leb_ℤ v (pos 0) then d else v

-- The defaults that `New` and `UpdateConfig` put in.
unfoldable pub normalize : BrokerConfig → BrokerConfig
unfolding or_default
normalize c = record c {
  max_pull_points = or_default c.max_pull_points (pos 10);
  subscription_timeout = or_default c.subscription_timeout (pos hour);
  notify_failure_threshold = or_default c.notify_failure_threshold (pos 3);
}

unfoldable pub new : BrokerConfig → Broker
unfolding normalize new_notifier
new c = record {
  cfg = normalize c;
  subs = [];
  notify = new_notifier c.notify_timeout;
  started = false;
  stopped = false;
}

unfoldable pub update_config : BrokerConfig → Broker → Broker
unfolding normalize new_notifier
update_config c b = record b { cfg = normalize c; notify = new_notifier c.notify_timeout }

unfoldable pub start : Broker → Broker
start b = record b { started = true }

unfoldable pub stop : Broker → Broker
stop b = record b { stopped = true }

-- now.After(sub.terminationTime)
abbrev pub is_expired : ℕ → Subscription → Bool
is_expired now s = ltb s.termination_time now

abbrev pub is_kind : SubKind → Subscription → Bool
is_kind sub_kind_pull s = elim s.kind [ sub_kind_pull ↦ true | sub_kind_push ↦ false ]
is_kind sub_kind_push s = elim s.kind [ sub_kind_pull ↦ false | sub_kind_push ↦ true ]

unfoldable pub count_by_kind : SubKind → Broker → ℕ
count_by_kind k b = count_if (is_kind k) b.subs

unfoldable pub reap : ℕ → Broker → Broker
reap now b = record b { subs = retain (λ s. not (is_expired now s)) b.subs }

-- The first entry of that name decides.
unfoldable pub topic_enabled : String → List TopicConfig → Bool
topic_enabled topic [] = false
topic_enabled topic (t ∷ ts) = ite (str_dec t.name topic) t.enabled (topic_enabled topic ts)

-- now.Add(d). An instant before the zero time does not arise from a clock reading.
abbrev pub add_duration : ℕ → ℤ → ℕ
add_duration now (pos d) = now + d
add_duration now (negsuc d) = now - suc d

pub record PushDispatch : Type 0 where
  pub subscription_id : String
  pub subscription_addr : String
  pub consumer : ConsumerEpr
  pub topic : String
  pub message : String

abbrev pub message_for : Subscription → String → String → NotificationMessage
message_for s topic message = record {
  subscription_reference = s.address;
  topic = topic;
  message = message;
}

-- Publish's loop body on one subscription: a live pull point that matches gets the message.
unfoldable pub deliver : ℕ → String → String → Subscription → Subscription
deliver now topic message s =
    if is_expired now s
    then s
    else if matches_topic s topic
    then elim s.kind [ sub_kind_push ↦ s | sub_kind_pull ↦ enqueue s (message_for s topic message) ]
    else s

abbrev pub dispatch_for : Subscription → String → String → PushDispatch
dispatch_for s topic message = record {
  subscription_id = s.id;
  subscription_addr = s.address;
  consumer = s.consumer;
  topic = topic;
  message = message;
}

-- The dispatches that the loop collects: one for each live push subscription that matches.
unfoldable pub pushes : ℕ → String → String → Dict Subscription → List PushDispatch
pushes now topic message [] = []
pushes now topic message ((k, s) ∷ m) =
    let rest = pushes now topic message m in
    if is_expired now s
    then rest
    else if matches_topic s topic
    then elim s.kind [ sub_kind_push ↦ dispatch_for s topic message ∷ rest | sub_kind_pull ↦ rest ]
    else rest

unfoldable pub publish : ℕ → String → String → Broker → Broker × List PushDispatch
unfolding topic_enabled pushes
publish now topic message b =
    if topic_enabled topic b.cfg.topics
    then (
      record b { subs = update_all (deliver now topic message) b.subs },
      pushes now topic message b.subs,
    )
    else (b, [])

-- The subscription after the outcome of one Notify.
unfoldable pub notified : ℕ → ℤ → Bool → Subscription → Subscription
notified now threshold true s = record s { notify_failures = 0 }
notified now threshold false s =
    let failed = record s { notify_failures = s.notify_failures + 1 } in
    if leb_ℤ threshold (pos (s.notify_failures + 1))
    then record failed { termination_time = now - second }
    else failed

pub record_notify_result : ℕ → String → Bool → Broker → Broker
record_notify_result now id success b = elim (lookup id b.subs) [
  | none ↦ b
  | some s ↦ record b {
    subs = insert id (notified now b.cfg.notify_failure_threshold success s) b.subs;
  }
]
