-- ===== src/Event/Broker/Requests.antt =====
-- The requests of subscribers: the part of internal/event/broker.go that implements
-- `eventsvc.Provider`. A request that reads the clock more than once takes each reading.
use onvif_simulator.Prelude.{
  ℕ, String, Bool, false, ◌&&◌, ◌||◌, not, Option, none, some, List, [], if◌then◌else◌, ite,
  str_dec, str_eq,
}
use Prim.Native.String.{◌++◌}
use onvif_simulator.Prelude.Int.{ℤ, pos, ltb_ℤ, leb_ℤ}
use onvif_simulator.Prelude.Dict.{lookup, insert, delete}
use onvif_simulator.Event.Duration.{Parsed, parse_iso8601_duration}
use onvif_simulator.Event.Subscription.{
  Subscription, sub_kind_pull, sub_kind_push, NotificationMessage, drain,
}
use onvif_simulator.Event.Broker.{
  Broker, BrokerConfig, Result, ok, err, Go, is_expired, count_by_kind, reap, add_duration,
  max_pull_points_reached, max_notification_producers_reached, notification_producer_disabled,
  subscription_not_found, invalid_args, invalid_termination_time, no_random_source,
}

unfoldable pub require_sub : ℕ → String → Broker → Broker × Result Subscription
require_sub now id b = elim (lookup id b.subs) [
  | none ↦ (b, err subscription_not_found)
  | some s ↦
      if is_expired now s
      then (record b { subs = delete id b.subs }, err subscription_not_found)
      else (b, ok s)
]

pub record PullResult : Type 0 where
  pub termination_time : ℕ
  pub messages : List NotificationMessage

unfoldable pub pull_from : String → ℤ → Broker → Result Subscription → Broker × Result PullResult
pull_from id limit b (err e) = (b, err e)
pull_from id limit b (ok s) =
    let (msgs, s') = drain s limit in
    (
      record b { subs = insert id s' b.subs },
      ok (record { termination_time = s.termination_time; messages = msgs }),
    )

unfoldable pub pull_messages : ℕ → String → ℤ → Broker → Broker × Result PullResult
unfolding require_sub pull_from
pull_messages now id limit b =
    if ltb_ℤ limit (pos 0)
    then (b, err invalid_args)
    else let (b', r) = require_sub now id b in pull_from id limit b' r

unfoldable pub unit_result : Result Subscription → Result (Unit {0})
unit_result (ok s) = ok tt
unit_result (err e) = err e

unfoldable pub set_synchronization_point : ℕ → String → Broker → Broker × Result (Unit {0})
unfolding require_sub unit_result
set_synchronization_point now id b = let (b', r) = require_sub now id b in (b', unit_result r)

unfoldable pub unsubscribe : ℕ → String → Broker → Broker × Result (Unit {0})
unsubscribe now id b = elim (lookup id b.subs) [
  | none ↦ (b, err subscription_not_found)
  | some s ↦ (
    record b { subs = delete id b.subs },
    (if is_expired now s then err subscription_not_found else ok tt),
  )
]

-- What one request reads from its surroundings: the clock in `reapLocked`, in `time.Until` and for
-- the termination time, and the random identifier, `none` if the random source fails.
pub record Readings : Type 0 where
  pub at_reap : ℕ
  pub at_parse : ℕ
  pub now : ℕ
  pub fresh_id : Option String

pub record SubscriptionInfo : Type 0 where
  pub subscription_id : String
  pub current_time : ℕ
  pub termination_time : ℕ

pub record SubscribeParams : Type 0 where
  pub consumer_address : String
  pub consumer_reference_params : String
  pub filter : String
  pub initial_termination_time : String

abbrev pub subscription_manager_path : String
subscription_manager_path = "/onvif/subscription_manager"

unfoldable pub or_requested : ℤ → Parsed ℤ → Result ℤ
or_requested d (Parsed.err e) = err (invalid_termination_time e)
or_requested d (Parsed.ok t) = ok (if ltb_ℤ (pos 0) t then t else d)

module _ (go : Go) where
  -- The lifetime that a request gets: the one it asks for, if it is positive.
  unfoldable pub lifetime : ℕ → String → BrokerConfig → Result ℤ
  unfolding or_requested
  lifetime now text c =
      ite (str_dec text "") (ok c.subscription_timeout)
        (or_requested c.subscription_timeout (parse_iso8601_duration go.time now text))

  unfoldable pub subscription_addr : String → BrokerConfig → String
  subscription_addr id c =
      let base =
        ite (str_dec c.subscription_manager_addr "") subscription_manager_path
          c.subscription_manager_addr in
      elim (go.set_query_id base id) [ none ↦ base ++ ("?id=" ++ go.query_escape id) | some u ↦ u ]

  -- The common end of both ways to subscribe: the lifetime, the identifier and the new entry.
  unfoldable pub admit :
      Readings → String → (String → ℕ → Subscription) → Broker → Broker × Result SubscriptionInfo
  unfolding lifetime
  admit r text entry b = elim (lifetime r.at_parse text b.cfg) [
    | err e ↦ (b, err e)
    | ok d ↦ elim r.fresh_id [
      | none ↦ (b, err no_random_source)
      | some id ↦
          let end = add_duration r.now d in
          (
            record b { subs = insert id (entry id end) b.subs },
            ok (record { subscription_id = id; current_time = r.now; termination_time = end }),
          )
    ]
  ]

  unfoldable pub pull_entry : String → BrokerConfig → String → ℕ → Subscription
  unfolding subscription_addr
  pull_entry filter c id end = record {
    id = id;
    address = subscription_addr id c;
    filter = filter;
    termination_time = end;
    queue = [];
    kind = sub_kind_pull;
    consumer = record { address = ""; reference_params = "" };
    notify_failures = 0;
  }

  unfoldable pub create_pull_point_subscription :
      Readings → String → String → Broker → Broker × Result SubscriptionInfo
  unfolding admit pull_entry
  create_pull_point_subscription r filter text b =
      let b' = reap r.at_reap b in
      if leb_ℤ b'.cfg.max_pull_points (pos (count_by_kind sub_kind_pull b'))
      then (b', err max_pull_points_reached)
      else admit r text (pull_entry filter b'.cfg) b'

  unfoldable pub push_entry : SubscribeParams → BrokerConfig → String → ℕ → Subscription
  unfolding subscription_addr
  push_entry p c id end = record {
    id = id;
    address = subscription_addr id c;
    filter = p.filter;
    termination_time = end;
    queue = [];
    kind = sub_kind_push;
    consumer = record {
      address = p.consumer_address;
      reference_params = p.consumer_reference_params;
    };
    notify_failures = 0;
  }

  -- Subscribe's checks of the consumer address.
  unfoldable pub consumer_accepted : String → Bool
  consumer_accepted address = ite (str_dec address "") false (elim (go.parse_request_uri address) [
    | none ↦ false
    | some u ↦ not (str_eq u.host "") && (str_eq u.scheme "http" || str_eq u.scheme "https")
  ])

  unfoldable pub subscribe : Readings → SubscribeParams → Broker → Broker × Result SubscriptionInfo
  unfolding consumer_accepted admit push_entry
  subscribe r p b =
      if not (consumer_accepted p.consumer_address)
      then (b, err invalid_args)
      else if leb_ℤ b.cfg.max_notification_producers (pos 0)
      then (b, err notification_producer_disabled)
      else let b' = reap r.at_reap b in
        if leb_ℤ b'.cfg.max_notification_producers (pos (count_by_kind sub_kind_push b'))
        then (b', err max_notification_producers_reached)
        else admit r p.initial_termination_time (push_entry p b'.cfg) b'

  unfoldable pub renew_found :
      Readings → String → String → Broker → Result Subscription → Broker × Result ℕ
  unfolding lifetime
  renew_found r id text b (err e) = (b, err e)
  renew_found r id text b (ok s) = elim (lifetime r.at_parse text b.cfg) [
    | err e ↦ (b, err e)
    | ok d ↦
        let end = add_duration r.now d in
        (record b { subs = insert id (record s { termination_time = end }) b.subs }, ok end)
  ]

  -- The readings are those of `requireSub`, of `time.Until` and for the new end.
  unfoldable pub renew : Readings → String → String → Broker → Broker × Result ℕ
  unfolding require_sub renew_found
  renew r id text b = let (b', found) = require_sub r.at_reap id b in renew_found r id text b' found
