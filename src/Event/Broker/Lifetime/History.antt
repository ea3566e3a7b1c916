-- ===== src/Event/Broker/Lifetime/History.antt =====
-- The limits on concurrent subscriptions hold over every history without a reconfiguration.
use onvif_simulator.Prelude.{
  ℕ, ◌+◌, ◌≤◌, ◌≡◌, String, Bool, true, false, List, [], ◌∷◌, arith, inl, inr, Bool-cases, if_both,
}
use onvif_simulator.Prelude.Int.{pos, leb_ℤ, pos_part}
use onvif_simulator.Prelude.Dict.{insert, count_if}
use onvif_simulator.Prelude.Dict.Entries.{count_if-insert}
use onvif_simulator.Event.Subscription.{Subscription, SubKind, sub_kind_pull, sub_kind_push}
use onvif_simulator.Event.Broker.{
  Broker, BrokerConfig, Go, new, start, stop, reap, is_kind, count_by_kind,
}
use onvif_simulator.Event.Broker.Requests.{
  Readings, SubscribeParams, create_pull_point_subscription, subscribe, admit, consumer_accepted,
  pull_entry, push_entry,
}
use onvif_simulator.Event.Broker.Cases.{admit_cases}
use onvif_simulator.Event.Broker.Step.{
  Call, starts, stops, configures, publishes, notifies, creates, subscribes, pulls, syncs, renews,
  unsubscribes, ticks, tick, step, run,
}
use onvif_simulator.Event.Broker.Lifetime.Limits.{
  IsWithinLimits, Shrinks-IsWithinLimits, reap-Shrinks, publish-Shrinks,
  record_notify_result-Shrinks, set_synchronization_point-Shrinks, pull_messages-Shrinks,
  unsubscribe-Shrinks, renew-Shrinks,
}

-- No call of the history replaces the configuration.
abbrev pub keeps_config : Call → Bool
keeps_config (configures c) = false
keeps_config _ = true

abbrev pub AllKeepConfig : List Call → Type 0
AllKeepConfig [] = Unit
AllKeepConfig (c ∷ cs) = (keeps_config c ≡ true) × AllKeepConfig cs

-- One more subscription of the kind `k` fits.
abbrev HasRoom : SubKind → Broker → Type 0
HasRoom sub_kind_pull b = count_by_kind sub_kind_pull b + 1 ≤ pos_part b.cfg.max_pull_points
HasRoom sub_kind_push b =
    count_by_kind sub_kind_push b + 1 ≤ pos_part b.cfg.max_notification_producers

insert-IsWithinLimits :
    (b : Broker) (id : String) (s : Subscription)
    → IsWithinLimits b
    → HasRoom s.kind b
    → IsWithinLimits (record b { subs = insert id s b.subs })
unfolding count_by_kind
insert-IsWithinLimits b id s w room = ground (
  arith,
  count_if-insert (is_kind sub_kind_pull) id s b.subs,
  count_if-insert (is_kind sub_kind_push) id s b.subs,
)

module _ (go : Go) (r : Readings) where
  admit-IsWithinLimits :
      (b : Broker) (text : String) (entry : String → ℕ → Subscription)
      → IsWithinLimits b
      → ((id : String) (end : ℕ) → HasRoom (entry id end).kind b)
      → IsWithinLimits (admit go r text entry b).0
  admit-IsWithinLimits b text entry w room =
      admit_cases go r text b entry (λ x. IsWithinLimits x.0) (λ _. w)
        (λ id d _ _. insert-IsWithinLimits b id _ w (room id _))

  create-IsWithinLimits :
      (b : Broker) (filter text : String)
      → IsWithinLimits b
      → IsWithinLimits (create_pull_point_subscription go r filter text b).0
  unfolding create_pull_point_subscription
  create-IsWithinLimits b filter text w =
      let b' = reap r.at_reap b in
      let w' = Shrinks-IsWithinLimits (reap-Shrinks b r.at_reap) w in
      elim (Bool-cases (leb_ℤ b'.cfg.max_pull_points (pos (count_by_kind sub_kind_pull b')))) [
        | inl full ↦ rw full w'
        | inr room ↦
            rw room (
              admit-IsWithinLimits b' text (pull_entry go filter b'.cfg) w'
                (λ id end. ground arith))
      ]

  subscribe-IsWithinLimits :
      (b : Broker) (p : SubscribeParams) → IsWithinLimits b → IsWithinLimits (subscribe go r p b).0
  unfolding subscribe
  subscribe-IsWithinLimits b p w =
      let b' = reap r.at_reap b in
      let w' = Shrinks-IsWithinLimits (reap-Shrinks b r.at_reap) w in
      elim (Bool-cases (consumer_accepted go p.consumer_address)) [
        | inr e ↦ rw e w
        | inl e ↦ elim (Bool-cases (leb_ℤ b.cfg.max_notification_producers (pos 0))) [
          | inl e' ↦ rw (e, e') w
          | inr e' ↦
              elim (Bool-cases
                (leb_ℤ b'.cfg.max_notification_producers (pos (count_by_kind sub_kind_push b')))) [
                  | inl full ↦ rw (e, e', full) w'
                  | inr room ↦
                      rw (e, e', room)
                        (admit-IsWithinLimits b' p.initial_termination_time (push_entry go p b'.cfg)
                          w' (λ id end. ground arith))
                ]
        ]
      ]

module _ (go : Go) where
  step-IsWithinLimits :
      (b : Broker) (c : Call)
      → keeps_config c ≡ true
      → IsWithinLimits b
      → IsWithinLimits (step go b c)
  unfolding step start stop tick count_by_kind
  step-IsWithinLimits b (configures c) h w = cc
  step-IsWithinLimits b starts h w = record {
    pulls_within = w.pulls_within;
    pushes_within = w.pushes_within;
  }
  step-IsWithinLimits b stops h w = record {
    pulls_within = w.pulls_within;
    pushes_within = w.pushes_within;
  }
  step-IsWithinLimits b (publishes now topic message) h w =
      Shrinks-IsWithinLimits (publish-Shrinks b now topic message) w
  step-IsWithinLimits b (notifies now id success) h w =
      Shrinks-IsWithinLimits (record_notify_result-Shrinks b now id success) w
  step-IsWithinLimits b (creates r filter text) h w = create-IsWithinLimits go r b filter text w
  step-IsWithinLimits b (subscribes r p) h w = subscribe-IsWithinLimits go r b p w
  step-IsWithinLimits b (pulls now id limit) h w =
      Shrinks-IsWithinLimits (pull_messages-Shrinks b now id limit) w
  step-IsWithinLimits b (syncs now id) h w =
      Shrinks-IsWithinLimits (set_synchronization_point-Shrinks b now id) w
  step-IsWithinLimits b (renews r id text) h w =
      Shrinks-IsWithinLimits (renew-Shrinks b go r id text) w
  step-IsWithinLimits b (unsubscribes now id) h w =
      Shrinks-IsWithinLimits (unsubscribe-Shrinks b now id) w
  step-IsWithinLimits b (ticks now) h w =
      if_both IsWithinLimits b.started _ b (Shrinks-IsWithinLimits (reap-Shrinks b now) w) w

  run-IsWithinLimits :
      (b : Broker) (cs : List Call)
      → AllKeepConfig cs
      → IsWithinLimits b
      → IsWithinLimits (run go b cs)
  unfolding run
  run-IsWithinLimits b [] h w = w
  run-IsWithinLimits b (c ∷ cs) h w =
      run-IsWithinLimits (step go b c) cs h.1 (step-IsWithinLimits b c h.0 w)

  -- From a new broker, every history of calls that does not replace the configuration keeps at
  -- most `MaxPullPoints` pull points and at most `MaxNotificationProducers` push subscriptions
  -- (none if that is negative), whatever identifiers are drawn.
  pub run-new-IsWithinLimits :
      (c : BrokerConfig) (cs : List Call) → AllKeepConfig cs → IsWithinLimits (run go (new c) cs)
  unfolding new count_by_kind count_if
  run-new-IsWithinLimits c cs h =
      run-IsWithinLimits (new c) cs h
        (record { pulls_within = omega arith; pushes_within = omega arith })
