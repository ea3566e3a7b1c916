-- ===== src/Event/Broker/Invariant.antt =====
-- What every history of calls keeps: distinct keys, entries under their own identifier, bounded
-- queues, and a normalised configuration.
pub mod History
use onvif_simulator.Prelude.{
  ℕ, ◌≤◌, ◌<◌, ◌≡◌, refl, ◌⊎◌, inl, inr, String, Bool, true, false, not, Option, none, some, List,
  [], ◌∷◌, arith, length, length-drop, drop-nil, Bool-cases, drop, drop-nil, Bool-cases,
  if◌then◌else◌, Option-cases, if_both,
}
use onvif_simulator.Prelude.Int.{ℤ, pos, negsuc, ◌≤ℤ◌, ltb_ℤ, leb_ℤ}
use onvif_simulator.Prelude.Dict.{Dict, IsDistinct, AllEntries, lookup, insert, delete, retain}
use onvif_simulator.Prelude.Dict.Entries.{
  insert-IsDistinct, delete-IsDistinct, retain-IsDistinct, update_all-IsDistinct, AllEntries-lookup,
  insert-AllEntries, delete-AllEntries, retain-AllEntries, update_all-AllEntries,
}
use onvif_simulator.Event.Subscription.{
  Subscription, sub_kind_pull, sub_kind_push, NotificationMessage, enqueue, drain, drain_count,
  matches_topic, default_queue_depth,
}
use onvif_simulator.Event.Subscription.Queue.{length-enqueue-le}
use onvif_simulator.Event.Broker.{
  Broker, BrokerConfig, Go, Result, ok, err, new, update_config, start, stop, reap, publish,
  deliver, message_for, notified, record_notify_result, normalize, is_expired, count_by_kind,
  topic_enabled, pushes,
}
use onvif_simulator.Event.Broker.Requests.{
  Readings, SubscribeParams, create_pull_point_subscription, subscribe, pull_messages,
  set_synchronization_point, renew, unsubscribe, require_sub, admit, renew_found, pull_from,
  consumer_accepted, pull_entry, push_entry,
}
use onvif_simulator.Event.Broker.Cases.{require_sub_cases, admit_cases, renew_found_cases}
use onvif_simulator.Event.Broker.Step.{
  Call, starts, stops, configures, publishes, notifies, creates, subscribes, pulls, syncs, renews,
  unsubscribes, ticks, tick, step, run,
}

-- An entry stands under its own identifier, its queue is within its bound, and only a pull point
-- has messages queued.
pub record IsKept (k : String) (s : Subscription) : Type 0 where
  pub own_key : s.id ≡ k
  pub bounded : length s.queue ≤ default_queue_depth
  pub queue_of_pull : (s.kind ≡ sub_kind_pull) ⊎ (s.queue ≡ [])

pub record IsNormal (c : BrokerConfig) : Type 0 where
  pub some_pull_points : pos 1 ≤ℤ c.max_pull_points
  pub some_timeout : pos 1 ≤ℤ c.subscription_timeout
  pub some_failures : pos 1 ≤ℤ c.notify_failure_threshold

pub record IsValid (b : Broker) : Type 0 where
  pub distinct : IsDistinct b.subs
  pub kept : AllEntries IsKept b.subs
  pub normal : IsNormal b.cfg

pub normalize-IsNormal : (c : BrokerConfig) → IsNormal (normalize c)
unfolding normalize
normalize-IsNormal c = ground arith

pub new-IsValid : (c : BrokerConfig) → IsValid (new c)
unfolding new
new-IsValid c = record { distinct = tt; kept = tt; normal = normalize-IsNormal c }

pub deliver-IsKept :
    (now : ℕ) (topic message k : String) (s : Subscription)
    → IsKept k s
    → IsKept k (deliver now topic message s)
unfolding deliver enqueue
deliver-IsKept now topic message k s h =
    ground (arith, length-enqueue-le s (message_for s topic message))

pub notified-IsKept :
    (now : ℕ) (t : ℤ) (success : Bool) (k : String) (s : Subscription)
    → IsKept k s
    → IsKept k (notified now t success s)
unfolding notified
notified-IsKept now t true k s h = ground arith
notified-IsKept now t false k s h = ground arith

pub renewed-IsKept :
    (k : String) (s : Subscription) (end : ℕ)
    → IsKept k s
    → IsKept k (record s { termination_time = end })
renewed-IsKept k s end h = record {
  own_key = h.own_key;
  bounded = h.bounded;
  queue_of_pull = h.queue_of_pull;
}

pub drain-IsKept :
    (limit : ℤ) (k : String) (s : Subscription) → IsKept k s → IsKept k (drain s limit).1
unfolding drain
drain-IsKept limit k s h = ground (
  arith,
  length-drop (drain_count limit (length s.queue)) s.queue,
  drop-nil {A = NotificationMessage} (drain_count limit (length s.queue)),
)

-- The four ways in which the calls change the dictionary.
module _ (b : Broker) (v : IsValid b) where
  pub insert-IsValid :
      (k : String) (s : Subscription) → IsKept k s → IsValid (record b { subs = insert k s b.subs })
  insert-IsValid k s h = record {
    distinct = insert-IsDistinct k s b.subs v.distinct;
    kept = insert-AllEntries IsKept k s b.subs v.kept h;
    normal = v.normal;
  }

  pub delete-IsValid : (k : String) → IsValid (record b { subs = delete k b.subs })
  delete-IsValid k = record {
    distinct = delete-IsDistinct k b.subs v.distinct;
    kept = delete-AllEntries IsKept k b.subs v.kept;
    normal = v.normal;
  }

  pub reap-IsValid : (now : ℕ) → IsValid (reap now b)
  unfolding reap
  reap-IsValid now = record {
    distinct = retain-IsDistinct (λ s. not (is_expired now s)) b.subs v.distinct;
    kept = retain-AllEntries IsKept (λ s. not (is_expired now s)) b.subs v.kept;
    normal = v.normal;
  }

  publish-IsValid : (now : ℕ) (topic message : String) → IsValid (publish now topic message b).0
  unfolding publish
  publish-IsValid now topic message = elim (Bool-cases (topic_enabled topic b.cfg.topics)) [
    | inl e ↦ rw e (record {
      distinct = update_all-IsDistinct (deliver now topic message) b.subs v.distinct;
      kept =
          update_all-AllEntries IsKept (deliver now topic message) b.subs
            (deliver-IsKept now topic message) v.kept;
      normal = v.normal;
    })
    | inr e ↦ rw e v
  ]

  pub record_notify_result-IsValid :
      (now : ℕ) (id : String) (success : Bool) → IsValid (record_notify_result now id success b)
  unfolding record_notify_result
  record_notify_result-IsValid now id success = elim (Option-cases (lookup id b.subs)) [
    | inl e ↦ rw (e, record_notify_result) v
    | inr (s, e) ↦
        rw (e, record_notify_result)
          (insert-IsValid id _ (
            notified-IsKept now b.cfg.notify_failure_threshold success id s
              (AllEntries-lookup IsKept id s b.subs v.kept e)))
  ]

  pub require_sub-IsValid : (now : ℕ) (id : String) → IsValid (require_sub now id b).0
  require_sub-IsValid now id =
      require_sub_cases b now id (λ x. IsValid x.0) (λ _. v) (λ s _ _. delete-IsValid id)
        (λ s _ _. v)

  pub update_config-IsValid : (c : BrokerConfig) → IsValid (update_config c b)
  unfolding update_config
  update_config-IsValid c = record {
    distinct = v.distinct;
    kept = v.kept;
    normal = normalize-IsNormal c;
  }

  pub tick-IsValid : (now : ℕ) → IsValid (tick now b)
  unfolding tick
  tick-IsValid now = if_both IsValid b.started _ b (reap-IsValid now) v

  pub pull_messages-IsValid :
      (now : ℕ) (id : String) (limit : ℤ) → IsValid (pull_messages now id limit b).0
  unfolding pull_messages
  pull_messages-IsValid now id limit = elim (Bool-cases (ltb_ℤ limit (pos 0))) [
    | inl e ↦ rw e v
    | inr e ↦ rw e (
        require_sub_cases b now id (λ x. IsValid (pull_from id limit x.0 x.1).0) (λ _. v)
          (λ s _ _. delete-IsValid id)
          (λ s h _.
            insert-IsValid id _
              (drain-IsKept limit id s (AllEntries-lookup IsKept id s b.subs v.kept h))))
  ]

  pub set_synchronization_point-IsValid :
      (now : ℕ) (id : String) → IsValid (set_synchronization_point now id b).0
  unfolding set_synchronization_point
  set_synchronization_point-IsValid now id = require_sub-IsValid now id

  pub unsubscribe-IsValid : (now : ℕ) (id : String) → IsValid (unsubscribe now id b).0
  unfolding unsubscribe
  unsubscribe-IsValid now id = elim (Option-cases (lookup id b.subs)) [
    | inl e ↦ rw (e, unsubscribe) v
    | inr (s, e) ↦ rw (e, unsubscribe) (delete-IsValid id)
  ]
