-- ===== src/Event/Broker/Invariant/History.antt =====
-- Every history of calls keeps the broker valid.
use onvif_simulator.Prelude.{
  ℕ, refl, inl, inr, String, List, [], ◌∷◌, arith, Bool-cases, Bool-cases,
}
use onvif_simulator.Prelude.Int.{pos, leb_ℤ}
use onvif_simulator.Prelude.Dict.Entries.{AllEntries-lookup}
use onvif_simulator.Event.Subscription.{Subscription, sub_kind_pull, sub_kind_push}
use onvif_simulator.Event.Broker.{Broker, BrokerConfig, Go, new, start, stop, reap, count_by_kind}
use onvif_simulator.Event.Broker.Requests.{
  Readings, SubscribeParams, create_pull_point_subscription, subscribe, renew, admit, renew_found,
  consumer_accepted, pull_entry, push_entry,
}
use onvif_simulator.Event.Broker.Cases.{require_sub_cases, admit_cases, renew_found_cases}
use onvif_simulator.Event.Broker.Step.{
  Call, starts, stops, configures, publishes, notifies, creates, subscribes, pulls, syncs, renews,
  unsubscribes, ticks, step, run,
}
use onvif_simulator.Event.Broker.Invariant.{
  IsKept, IsValid, new-IsValid, renewed-IsKept, insert-IsValid, delete-IsValid, reap-IsValid,
  publish-IsValid, record_notify_result-IsValid, update_config-IsValid, tick-IsValid,
  pull_messages-IsValid, set_synchronization_point-IsValid, unsubscribe-IsValid,
}

module _ (go : Go) (r : Readings) where
  admit-IsValid :
      (b : Broker) (text : String) (entry : String → ℕ → Subscription)
      → IsValid b
      → ((id : String) (end : ℕ) → IsKept id (entry id end))
      → IsValid (admit go r text entry b).0
  admit-IsValid b text entry v h =
      admit_cases go r text b entry (λ x. IsValid x.0) (λ _. v)
        (λ id d _ _. insert-IsValid b v id _ (h id _))

  create-IsValid :
      (b : Broker) (filter text : String)
      → IsValid b
      → IsValid (create_pull_point_subscription go r filter text b).0
  unfolding create_pull_point_subscription
  create-IsValid b filter text v =
      let b' = reap r.at_reap b in
      elim (Bool-cases (leb_ℤ b'.cfg.max_pull_points (pos (count_by_kind sub_kind_pull b')))) [
        | inl e ↦ rw e (reap-IsValid b v r.at_reap)
        | inr e ↦ rw e (
            admit-IsValid b' text (pull_entry go filter b'.cfg) (reap-IsValid b v r.at_reap)
              (λ id end. record {
                own_key = refl;
                bounded = omega arith;
                queue_of_pull = inl refl;
              }))
      ]

  subscribe-IsValid :
      (b : Broker) (p : SubscribeParams) → IsValid b → IsValid (subscribe go r p b).0
  unfolding subscribe
  subscribe-IsValid b p v =
      let b' = reap r.at_reap b in
      elim (Bool-cases (consumer_accepted go p.consumer_address)) [
        | inr e ↦ rw e v
        | inl e ↦ elim (Bool-cases (leb_ℤ b.cfg.max_notification_producers (pos 0))) [
          | inl e' ↦ rw (e, e') v
          | inr e' ↦
              elim (Bool-cases
                (leb_ℤ b'.cfg.max_notification_producers (pos (count_by_kind sub_kind_push b')))) [
                  | inl full ↦ rw (e, e', full) (reap-IsValid b v r.at_reap)
                  | inr room ↦
                      rw (e, e', room)
                        (admit-IsValid b' p.initial_termination_time (push_entry go p b'.cfg)
                          (reap-IsValid b v r.at_reap)
                          (λ id end. record {
                            own_key = refl;
                            bounded = omega arith;
                            queue_of_pull = inr refl;
                          }))
                ]
        ]
      ]

  renew-IsValid : (b : Broker) (id text : String) → IsValid b → IsValid (renew go r id text b).0
  unfolding renew
  renew-IsValid b id text v =
      require_sub_cases b r.at_reap id (λ x. IsValid (renew_found go r id text x.0 x.1).0) (λ _. v)
        (λ s _ _. delete-IsValid b v id)
        (λ s h _.
          renew_found_cases go r text b id s (λ x. IsValid x.0) (λ _. v)
            (λ d _.
              insert-IsValid b v id _
                (renewed-IsKept id s _ (AllEntries-lookup IsKept id s b.subs v.kept h))))

module _ (go : Go) where
  pub step-IsValid : (b : Broker) (c : Call) → IsValid b → IsValid (step go b c)
  unfolding step start stop
  step-IsValid b starts v = record { distinct = v.distinct; kept = v.kept; normal = v.normal }
  step-IsValid b stops v = record { distinct = v.distinct; kept = v.kept; normal = v.normal }
  step-IsValid b (configures c) v = update_config-IsValid b v c
  step-IsValid b (publishes now topic message) v = publish-IsValid b v now topic message
  step-IsValid b (notifies now id success) v = record_notify_result-IsValid b v now id success
  step-IsValid b (creates r filter text) v = create-IsValid go r b filter text v
  step-IsValid b (subscribes r p) v = subscribe-IsValid go r b p v
  step-IsValid b (pulls now id limit) v = pull_messages-IsValid b v now id limit
  step-IsValid b (syncs now id) v = set_synchronization_point-IsValid b v now id
  step-IsValid b (renews r id text) v = renew-IsValid go r b id text v
  step-IsValid b (unsubscribes now id) v = unsubscribe-IsValid b v now id
  step-IsValid b (ticks now) v = tick-IsValid b v now

  run-IsValid : (b : Broker) (cs : List Call) → IsValid b → IsValid (run go b cs)
  unfolding run
  run-IsValid b [] v = v
  run-IsValid b (c ∷ cs) v = run-IsValid (step go b c) cs (step-IsValid b c v)

  -- After any history of calls from a new broker, the identifiers are distinct and each entry
  -- stands under its own, no queue is longer than 256 messages, push subscriptions queue nothing,
  -- and the limits on pull points, the default lifetime and the failure threshold are positive.
  pub run-new-IsValid : (c : BrokerConfig) (cs : List Call) → IsValid (run go (new c) cs)
  run-new-IsValid c cs = run-IsValid (new c) cs (new-IsValid c)
