-- ===== src/Event/Broker/Lifetime.antt =====
-- The life of a subscription: admission under the limits, renewal, and the end by a request or by
-- the clock.
pub mod Limits
pub mod History
use onvif_simulator.Prelude.{
  ℕ, ◌+◌, ◌≤◌, ◌<◌, ◌≡◌, refl, String, Bool, true, false, Option, none, some, List, [], ◌∷◌, arith,
  ◌∙◌, ap, sym, not, leb, ltb, if◌then◌else◌, str_dec, ite, inl, inr, Bool-cases, ◌≢◌,
}
use onvif_simulator.Prelude.Int.{ℤ, pos, negsuc, ◌≤ℤ◌, leb_ℤ, ltb_ℤ}
use onvif_simulator.Prelude.Dict.{lookup, insert}
use onvif_simulator.Prelude.Dict.Lookups.{
  lookup-insert, lookup-insert_self, lookup-retain, lookup-delete_self, lookup-delete, keep_value,
}
use onvif_simulator.Event.Subscription.{Subscription, sub_kind_pull, drain}
use onvif_simulator.Event.Broker.{
  Broker, BrokerConfig, BrokerError, Result, ok, err, Go, reap, is_expired, add_duration,
  subscription_not_found, count_by_kind, max_pull_points_reached,
}
use onvif_simulator.Event.Broker.Requests.{
  Readings, SubscriptionInfo, PullResult, require_sub, pull_messages, set_synchronization_point,
  renew, unsubscribe, renew_found, pull_from, lifetime, create_pull_point_subscription, admit,
  pull_entry, subscription_addr, unit_result,
}
use onvif_simulator.Event.Broker.Cases.{require_sub_cases, admit_cases, renew_found_cases}
use onvif_simulator.Event.Broker.Invariant.{IsValid, IsNormal}

-- The outcome of a request that finds no live subscription: the error, and no entry left.
abbrev pub IsGone {ℓ} : {A : Type ℓ} → String → Broker × Result A → Type ℓ
IsGone id (b, r) = (r ≡ err subscription_not_found) × (lookup id b.subs ≡ none)

-- Every request on a subscription whose end has passed fails as if it did not exist, and removes
-- it: PullMessages (whatever its limit, unless that is negative), SetSynchronizationPoint, Renew
-- and Unsubscribe.
pub expired-IsGone :
    (go : Go) (b : Broker) (id text : String) (s : Subscription) (now limit : ℕ) (r : Readings)
    → lookup id b.subs ≡ some s
    → s.termination_time < now
    → s.termination_time < r.at_reap
    → IsGone id (pull_messages now id (pos limit) b)
      × IsGone id (set_synchronization_point now id b)
      × IsGone id (renew go r id text b)
      × IsGone id (unsubscribe now id b)
unfolding pull_messages set_synchronization_point renew unsubscribe
expired-IsGone go b id text s now limit r h old old' = (
  ground (arith, lookup-delete_self id b.subs),
  ground (arith, lookup-delete_self id b.subs),
  ground (arith, lookup-delete_self id b.subs),
  ground (arith, lookup-delete_self id b.subs),
)

-- A renewal of `id` from `b` with the result `x` moved the end of a live subscription to `end`.
abbrev pub Extends : Go → Readings → String → String → ℕ → Broker → Broker → Type 0
Extends go r id text end b b' =
    (s : Subscription) × (d : ℤ) × (lookup id b.subs ≡ some s)
    × (r.at_reap ≤ s.termination_time)
    × (lifetime go r.at_parse text b.cfg ≡ ok d)
    × (end ≡ add_duration r.now d)
    × ((j : String)
        → lookup j b'.subs
          ≡ ite (str_dec id j) (some (record s { termination_time = end })) (lookup j b.subs))

-- A Renew that succeeds found the subscription live. It moves the end to the lifetime from the
-- clock's reading, changes nothing else of the subscription, and leaves every other one alone.
pub renew-Extends :
    (go : Go) (b : Broker) (id text : String) (r : Readings) (end : ℕ)
    → (renew go r id text b).1 ≡ ok end
    → Extends go r id text end b (renew go r id text b).0
unfolding renew
renew-Extends go b id text r end =
    require_sub_cases b r.at_reap id
      (λ x.
        (renew_found go r id text x.0 x.1).1 ≡ ok end
        → Extends go r id text end b (renew_found go r id text x.0 x.1).0)
      (λ _ h. cc) (λ s _ _ h. cc)
      λ s found live.
        renew_found_cases go r text b id s (λ x. x.1 ≡ ok end → Extends go r id text end b x.0)
          (λ e h. cc)
          λ d asked h. (
            s,
            d,
            found,
            ground arith,
            asked,
            ground arith,
            λ j. ground (arith, lookup-insert id j (record s { termination_time = end }) b.subs),
          )

-- `b'` is `b` after a reap, with the new pull point that `info` tells of.
abbrev pub Admits : Go → Readings → String → String → SubscriptionInfo → Broker → Broker → Type 0
Admits go r filter text info b b' =
    (d : ℤ) × (lifetime go r.at_parse text b.cfg ≡ ok d)
    × (r.fresh_id ≡ some info.subscription_id)
    × (info.termination_time ≡ add_duration r.now d)
    × ((j : String)
        → lookup j b'.subs
          ≡ ite (str_dec info.subscription_id j)
              (some (record {
                id = info.subscription_id;
                address = subscription_addr go info.subscription_id b.cfg;
                filter = filter;
                termination_time = info.termination_time;
                queue = [];
                kind = sub_kind_pull;
                consumer = record { address = ""; reference_params = "" };
                notify_failures = 0;
              }))
              (keep_value (λ s. not (is_expired r.at_reap s)) (lookup j b.subs)))

-- A creation that succeeds from a valid broker adds one pull point under the identifier that was
-- drawn, with the filter that was asked, an empty queue, no failures, and the end that the lifetime
-- gives from the clock's reading. Every other
-- subscription is as it was if it was live at the reap, and gone if it had expired.
pub create-Admits :
    (go : Go) (b : Broker) (filter text : String) (r : Readings) (info : SubscriptionInfo)
    → IsValid b
    → (create_pull_point_subscription go r filter text b).1 ≡ ok info
    → Admits go r filter text info b (create_pull_point_subscription go r filter text b).0
unfolding create_pull_point_subscription reap pull_entry
create-Admits go b filter text r info v =
    let b' = reap r.at_reap b in
    elim (Bool-cases (leb_ℤ b'.cfg.max_pull_points (pos (count_by_kind sub_kind_pull b')))) [
      | inl full ↦ rw full (λ h. cc)
      | inr room ↦ rw room (
          admit_cases go r text b' (pull_entry go filter b'.cfg)
            (λ x. x.1 ≡ ok info → Admits go r filter text info b x.0) (λ e h. cc)
            λ id d drawn asked h. (
              d,
              asked,
              ground arith,
              ground arith,
              λ j. ground (
                arith,
                lookup-insert id j (pull_entry go filter b.cfg id (add_duration r.now d)) b'.subs,
                lookup-retain (λ s. not (is_expired r.at_reap s)) j b.subs v.distinct,
              ),
            ))
    ]
