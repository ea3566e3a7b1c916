-- ===== src/Event/Broker/Step.antt =====
-- The broker under concurrent use: every entry point is one call, and a history is a list of calls,
-- in the order in which they got the broker's mutex.
use onvif_simulator.Prelude.{ℕ, String, Bool, List, [], ◌∷◌, if◌then◌else◌}
use onvif_simulator.Prelude.Int.{ℤ}
use onvif_simulator.Event.Broker.{
  Broker, BrokerConfig, Go, update_config, start, stop, reap, publish, record_notify_result,
}
use onvif_simulator.Event.Broker.Requests.{
  Readings, SubscribeParams, create_pull_point_subscription, subscribe, pull_messages,
  set_synchronization_point, renew, unsubscribe,
}

pub data Call : Type 0 where
  starts stops : Call
  configures : BrokerConfig → Call
  publishes : ℕ → String → String → Call
  notifies : ℕ → String → Bool → Call
  creates : Readings → String → String → Call
  subscribes : Readings → SubscribeParams → Call
  pulls : ℕ → String → ℤ → Call
  syncs : ℕ → String → Call
  renews : Readings → String → String → Call
  unsubscribes : ℕ → String → Call
  ticks : ℕ → Call

-- One turn of `reapLoop`: the goroutine runs once the broker is started. After a stop a tick that
-- was already waiting may still be taken.
unfoldable pub tick : ℕ → Broker → Broker
tick now b = if b.started then reap now b else b

module _ (go : Go) where
  unfoldable pub step : Broker → Call → Broker
  unfolding tick
  step b starts = start b
  step b stops = stop b
  step b (configures c) = update_config c b
  step b (publishes now topic message) = (publish now topic message b).0
  step b (notifies now id success) = record_notify_result now id success b
  step b (creates r filter text) = (create_pull_point_subscription go r filter text b).0
  step b (subscribes r p) = (subscribe go r p b).0
  step b (pulls now id limit) = (pull_messages now id limit b).0
  step b (syncs now id) = (set_synchronization_point now id b).0
  step b (renews r id text) = (renew go r id text b).0
  step b (unsubscribes now id) = (unsubscribe now id b).0
  step b (ticks now) = tick now b

  unfoldable pub run : Broker → List Call → Broker
  run b [] = b
  run b (c ∷ cs) = run (step b c) cs
