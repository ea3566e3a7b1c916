-- ===== src/Event/Broker/Cases.antt =====
-- How a request ends, as a rule for each request: what holds of every ending holds of the request.
use onvif_simulator.Prelude.{
  ℕ, ◌≡◌, String, true, false, none, some, Option-cases, Bool-cases, ◌⊎◌, inl, inr, refl,
}
use onvif_simulator.Prelude.Int.{ℤ}
use onvif_simulator.Prelude.Dict.{lookup, insert, delete}
use onvif_simulator.Event.Subscription.{Subscription}
use onvif_simulator.Event.Broker.{
  Broker, BrokerError, Go, Result, ok, err, is_expired, add_duration, subscription_not_found,
  no_random_source,
}
use onvif_simulator.Event.Broker.Requests.{
  Readings, SubscriptionInfo, require_sub, lifetime, admit, renew_found,
}

Result-cases {ℓ} :
    {A : Type ℓ} (r : Result A) → ((e : BrokerError) × (r ≡ err e)) ⊎ ((a : A) × (r ≡ ok a))
Result-cases (ok a) = inr (a, refl)
Result-cases (err e) = inl (e, refl)

module _ {ℓ} (b : Broker) (now : ℕ) (id : String) where
  pub require_sub_cases :
      (P : Broker × Result Subscription → Type ℓ)
      → (lookup id b.subs ≡ none → P (b, err subscription_not_found))
      → ((s : Subscription)
          → lookup id b.subs ≡ some s
          → is_expired now s ≡ true
          → P (record b { subs = delete id b.subs }, err subscription_not_found))
      → ((s : Subscription) → lookup id b.subs ≡ some s → is_expired now s ≡ false → P (b, ok s))
      → P (require_sub now id b)
  unfolding require_sub
  require_sub_cases P missing old live = elim (Option-cases (lookup id b.subs)) [
    | inl e ↦ rw (e, require_sub) (missing e)
    | inr (s, e) ↦ elim (Bool-cases (is_expired now s)) [
      | inl t ↦ rw (e, require_sub, t) (old s e t)
      | inr t ↦ rw (e, require_sub, t) (live s e t)
    ]
  ]

module _ {ℓ} (go : Go) (r : Readings) (text : String) (b : Broker) where
  pub admit_cases :
      (entry : String → ℕ → Subscription) (P : Broker × Result SubscriptionInfo → Type ℓ)
      → ((e : BrokerError) → P (b, err e))
      → ((id : String) (d : ℤ)
          → r.fresh_id ≡ some id
          → lifetime go r.at_parse text b.cfg ≡ ok d
          → P (
            record b { subs = insert id (entry id (add_duration r.now d)) b.subs },
            ok (record {
              subscription_id = id;
              current_time = r.now;
              termination_time = add_duration r.now d;
            }),
          ))
      → P (admit go r text entry b)
  unfolding admit
  admit_cases entry P failed added = elim (Result-cases (lifetime go r.at_parse text b.cfg)) [
    | inl (e, h) ↦ rw (h, admit) (failed e)
    | inr (d, h) ↦ elim (Option-cases r.fresh_id) [
      | inl n ↦ rw (h, admit, n) (failed no_random_source)
      | inr (id, n) ↦ rw (h, admit, n) (added id d n h)
    ]
  ]

  pub renew_found_cases :
      (id : String) (s : Subscription) (P : Broker × Result ℕ → Type ℓ)
      → ((e : BrokerError) → P (b, err e))
      → ((d : ℤ)
          → lifetime go r.at_parse text b.cfg ≡ ok d
          → P (
            record b {
              subs = insert id (record s { termination_time = add_duration r.now d }) b.subs;
            },
            ok (add_duration r.now d),
          ))
      → P (renew_found go r id text b (ok s))
  unfolding renew_found
  renew_found_cases id s P failed renewed =
      elim (Result-cases (lifetime go r.at_parse text b.cfg)) [
        | inl (e, h) ↦ rw (h, renew_found) (failed e)
        | inr (d, h) ↦ rw (h, renew_found) (renewed d h)
      ]
