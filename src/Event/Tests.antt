-- ===== src/Event/Tests.antt =====
-- Runs of the broker at concrete inputs, and the theorems about it at these inputs.
use onvif_simulator.Prelude.{
  ℕ, ◌≡◌, refl, true, false, none, some, [], ◌∷◌, arith, length, str_dec, has_prefix, ap, inl, inr,
}
use onvif_simulator.Prelude.Int.{pos}
use onvif_simulator.Prelude.Dict.{lookup, insert, update_all, retain, count_if}
use onvif_simulator.Event.Duration.{parse_iso8601_duration}
use onvif_simulator.Event.Subscription.{drain, enqueue, matches_topic}
use onvif_simulator.Event.Subscription.Queue.{enqueue_all, enqueue_all-eq-last}
use onvif_simulator.Event.Broker.{
  Broker, ok, new, publish, reap, record_notify_result, topic_enabled, deliver, count_by_kind,
}
use onvif_simulator.Event.Broker.Requests.{
  SubscriptionInfo, pull_messages, renew, unsubscribe, set_synchronization_point,
  create_pull_point_subscription,
}
use onvif_simulator.Event.Broker.Step.{run}
use onvif_simulator.Event.Broker.Invariant.{IsValid}
use onvif_simulator.Event.Broker.Invariant.History.{run-new-IsValid}
use onvif_simulator.Event.Broker.Lifetime.{
  IsGone, Extends, Admits, expired-IsGone, renew-Extends, create-Admits,
}
use onvif_simulator.Event.Broker.Lifetime.Limits.{IsWithinLimits}
use onvif_simulator.Event.Broker.Lifetime.History.{run-new-IsWithinLimits}
use onvif_simulator.Event.Broker.Delivery.{
  dispatches_to, lookup-publish, dispatches_to-publish, pull_messages-publish,
}
use onvif_simulator.Event.Broker.Failures.{fail_all, fail_all_evicts, fail_all_after_success}
use onvif_simulator.Event.Samples.{
  toy_go, motion, sample_config, at_time, sample_history, first_pull, push_sub, two_subs,
  first_message,
}

-- The history's Publish reaches the pull point: "a" pulls one message.
first_pull_gets_it :
    (pull_messages 105 "a" (pos 1) (publish 103 motion "m1" two_subs).0).1
    ≡ ok (record { termination_time = 30000000100; messages = first_message ∷ [] })
unfolding pull_messages publish deliver lookup insert update_all drain enqueue matches_topic
    has_prefix str_dec
first_pull_gets_it = refl

two_subs-IsValid : IsValid two_subs
unfolding lookup str_dec
two_subs-IsValid = record {
  distinct = (refl, (refl, tt));
  kept = (
    record { own_key = refl; bounded = omega arith; queue_of_pull = inl refl },
    (record { own_key = refl; bounded = omega arith; queue_of_pull = inr refl }, tt),
  );
  normal = record {
    some_pull_points = omega arith;
    some_timeout = omega arith;
    some_failures = omega arith;
  };
}

run-new-IsValid_example : IsValid (run toy_go (new sample_config) sample_history)
run-new-IsValid_example = run-new-IsValid toy_go sample_config sample_history

run-new-IsWithinLimits_example : IsWithinLimits (run toy_go (new sample_config) sample_history)
run-new-IsWithinLimits_example =
    run-new-IsWithinLimits toy_go sample_config sample_history
      (refl, (refl, (refl, (refl, (refl, (refl, (refl, (refl, (refl, (refl, tt))))))))))

found_first : lookup "a" two_subs.subs ≡ some first_pull
unfolding lookup str_dec
found_first = refl

found_push : lookup "c" two_subs.subs ≡ some push_sub
unfolding lookup str_dec
found_push = refl

pull_messages-publish_example :
    let after = pull_messages 105 "a" (pos 0) (publish 103 motion "m1" two_subs).0 in
    (after.1 ≡ ok (record { termination_time = 30000000100; messages = first_message ∷ [] }))
    × (lookup "a" after.0.subs ≡ some first_pull)
unfolding matches_topic has_prefix str_dec topic_enabled
pull_messages-publish_example =
    pull_messages-publish two_subs 103 105 motion "m1" "a" first_pull two_subs-IsValid found_first
      refl (omega arith) (omega arith) refl refl

lookup-publish_example :
    lookup "a" (publish 103 motion "m1" two_subs).0.subs
    ≡ some (record first_pull { queue = first_message ∷ [] })
unfolding matches_topic has_prefix str_dec topic_enabled lookup
lookup-publish_example = lookup-publish two_subs 103 motion "m1" "a" two_subs-IsValid

dispatches_to-publish_example : length (dispatches_to "c" (publish 103 motion "m1" two_subs).1) ≡ 1
unfolding matches_topic has_prefix str_dec topic_enabled lookup
dispatches_to-publish_example =
    ap length (dispatches_to-publish two_subs 103 motion "m1" "c" two_subs-IsValid)

enqueue_all-eq-last_example :
    (enqueue_all first_pull (first_message ∷ first_message ∷ [])).queue
    ≡ first_message ∷ first_message ∷ []
enqueue_all-eq-last_example =
    enqueue_all-eq-last first_pull (first_message ∷ first_message ∷ []) (omega arith)

fail_all_evicts_example :
    lookup "c"
      (reap 130 (record_notify_result 130 "c" false (fail_all (110 ∷ 120 ∷ []) "c" two_subs))).subs
    ≡ none
fail_all_evicts_example =
    fail_all_evicts (110 ∷ 120 ∷ []) two_subs "c" push_sub 130 130 two_subs-IsValid found_push refl
      (omega arith) (omega arith)

fail_all_after_success_example :
    lookup "c" (fail_all (120 ∷ 130 ∷ []) "c" (record_notify_result 110 "c" true two_subs)).subs
    ≡ some (record push_sub { notify_failures = 2 })
fail_all_after_success_example =
    fail_all_after_success (120 ∷ 130 ∷ []) two_subs "c" push_sub 110 found_push (omega arith)

abbrev late : ℕ
late = 30000000101

expired-IsGone_example :
    IsGone "a" (pull_messages late "a" (pos 0) two_subs)
    × IsGone "a" (set_synchronization_point late "a" two_subs)
    × IsGone "a" (renew toy_go (at_time late "") "a" "30s" two_subs)
    × IsGone "a" (unsubscribe late "a" two_subs)
expired-IsGone_example =
    expired-IsGone toy_go two_subs "a" "30s" first_pull late 0 (at_time late "") found_first
      (omega arith) (omega arith)

renew_runs : (renew toy_go (at_time 106 "") "a" "30s" two_subs).1 ≡ ok 30000000106
unfolding renew lookup str_dec parse_iso8601_duration
renew_runs = refl

renew-Extends_example :
    Extends toy_go
      (at_time 106 "")
      "a"
      "30s"
      30000000106
      two_subs
      (renew toy_go (at_time 106 "") "a" "30s" two_subs).0
renew-Extends_example =
    renew-Extends toy_go two_subs "a" "30s" (at_time 106 "") 30000000106 renew_runs

abbrev only_push : Broker
only_push = record two_subs { subs = ("c", push_sub) ∷ [] }

only_push-IsValid : IsValid only_push
unfolding lookup str_dec
only_push-IsValid = record {
  distinct = (refl, tt);
  kept = (record { own_key = refl; bounded = omega arith; queue_of_pull = inr refl }, tt);
  normal = two_subs-IsValid.normal;
}

abbrev created : SubscriptionInfo
created = record { subscription_id = "a"; current_time = 100; termination_time = 30000000100 }

create_runs :
    (create_pull_point_subscription toy_go (at_time 100 "a") "tns1:VideoSource" "30s" only_push).1
    ≡ ok created
unfolding create_pull_point_subscription lookup str_dec parse_iso8601_duration reap retain
    count_by_kind count_if
create_runs = refl

create-Admits_example :
    Admits toy_go
      (at_time 100 "a")
      "tns1:VideoSource"
      "30s"
      created
      only_push
      (create_pull_point_subscription toy_go (at_time 100 "a") "tns1:VideoSource" "30s" only_push).0
create-Admits_example =
    create-Admits toy_go only_push "tns1:VideoSource" "30s" (at_time 100 "a") created
      only_push-IsValid create_runs
