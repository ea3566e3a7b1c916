-- ===== src/Event/Broker/Lifetime/Limits.antt =====
-- The calls that add no subscription, and the limits that they therefore keep.
use onvif_simulator.Prelude.{
  ℕ, ◌≤◌, ◌≡◌, refl, String, Bool, true, false, some, arith, not, inl, inr, Bool-cases,
  Option-cases,
}
use onvif_simulator.Prelude.Int.{ℤ, pos, ltb_ℤ, pos_part}
use onvif_simulator.Prelude.Dict.{lookup, insert, delete}
use onvif_simulator.Prelude.Dict.Entries.{
  count_if-delete, count_if-retain, count_if-update_all, count_if-overwrite,
}
use onvif_simulator.Event.Subscription.{
  Subscription, SubKind, sub_kind_pull, sub_kind_push, drain, enqueue,
}
use onvif_simulator.Event.Broker.{
  Broker, Go, reap, publish, deliver, notified, record_notify_result, is_expired, is_kind,
  topic_enabled, count_by_kind,
}
use onvif_simulator.Event.Broker.Requests.{
  Readings, pull_messages, set_synchronization_point, renew, unsubscribe, require_sub, renew_found,
  pull_from,
}
use onvif_simulator.Event.Broker.Cases.{require_sub_cases, renew_found_cases}

-- At most as many subscriptions of each kind as before, under the same configuration.
pub record Shrinks (b b' : Broker) : Type 0 where
  pub same_cfg : b'.cfg ≡ b.cfg
  pub fewer : (k : SubKind) → count_by_kind k b' ≤ count_by_kind k b

pub record IsWithinLimits (b : Broker) : Type 0 where
  pub pulls_within : count_by_kind sub_kind_pull b ≤ pos_part b.cfg.max_pull_points
  pub pushes_within : count_by_kind sub_kind_push b ≤ pos_part b.cfg.max_notification_producers

pub Shrinks-IsWithinLimits : {b b' : Broker} → Shrinks b b' → IsWithinLimits b → IsWithinLimits b'
Shrinks-IsWithinLimits h w = record {
  pulls_within = simp h.same_cfg (omega (arith, h.fewer sub_kind_pull));
  pushes_within = simp h.same_cfg (omega (arith, h.fewer sub_kind_push));
}

kind-notified :
    (now : ℕ) (t : ℤ) (success : Bool) (s : Subscription) → (notified now t success s).kind ≡ s.kind
unfolding notified
kind-notified now t true s = refl
kind-notified now t false s = ground arith

module _ (b : Broker) where
  pub Shrinks-refl : Shrinks b b
  Shrinks-refl = record { same_cfg = refl; fewer = λ k. omega arith }

  pub delete-Shrinks : (id : String) → Shrinks b (record b { subs = delete id b.subs })
  unfolding count_by_kind
  delete-Shrinks id = record { same_cfg = refl; fewer = λ k. count_if-delete (is_kind k) id b.subs }

  pub overwrite-Shrinks :
      (id : String) (s s' : Subscription)
      → lookup id b.subs ≡ some s
      → s'.kind ≡ s.kind
      → Shrinks b (record b { subs = insert id s' b.subs })
  unfolding count_by_kind
  overwrite-Shrinks id s s' h same = record {
    same_cfg = refl;
    fewer = λ k. omega (arith, count_if-overwrite (is_kind k) id s s' b.subs h (same_kind k));
  }
    where
      same_kind : (k : SubKind) → is_kind k s' ≡ is_kind k s
      same_kind sub_kind_pull = ground arith
      same_kind sub_kind_push = ground arith

  pub reap-Shrinks : (now : ℕ) → Shrinks b (reap now b)
  unfolding reap count_by_kind
  reap-Shrinks now = record {
    same_cfg = refl;
    fewer = λ k. count_if-retain (is_kind k) (λ s. not (is_expired now s)) b.subs;
  }

  pub publish-Shrinks :
      (now : ℕ) (topic message : String) → Shrinks b (publish now topic message b).0
  unfolding publish deliver count_by_kind enqueue
  publish-Shrinks now topic message = elim (Bool-cases (topic_enabled topic b.cfg.topics)) [
    | inr e ↦ rw e Shrinks-refl
    | inl e ↦ rw e (record {
      same_cfg = refl;
      fewer = λ k.
          omega (
            arith,
            count_if-update_all (is_kind k) (deliver now topic message) b.subs (same_kind k),
          );
    })
  ]
    where
      same_kind :
          (k : SubKind) (s : Subscription) → is_kind k (deliver now topic message s) ≡ is_kind k s
      same_kind sub_kind_pull s = ground arith
      same_kind sub_kind_push s = ground arith

  pub record_notify_result-Shrinks :
      (now : ℕ) (id : String) (success : Bool) → Shrinks b (record_notify_result now id success b)
  unfolding record_notify_result
  record_notify_result-Shrinks now id success = elim (Option-cases (lookup id b.subs)) [
    | inl e ↦ rw (e, record_notify_result) Shrinks-refl
    | inr (s, e) ↦
        rw (e, record_notify_result)
          (overwrite-Shrinks id s _ e (kind-notified now b.cfg.notify_failure_threshold success s))
  ]

  pub require_sub-Shrinks : (now : ℕ) (id : String) → Shrinks b (require_sub now id b).0
  require_sub-Shrinks now id =
      require_sub_cases b now id (λ x. Shrinks b x.0) (λ _. Shrinks-refl)
        (λ s _ _. delete-Shrinks id) (λ s _ _. Shrinks-refl)

  pub set_synchronization_point-Shrinks :
      (now : ℕ) (id : String) → Shrinks b (set_synchronization_point now id b).0
  unfolding set_synchronization_point
  set_synchronization_point-Shrinks now id = require_sub-Shrinks now id

  pub pull_messages-Shrinks :
      (now : ℕ) (id : String) (limit : ℤ) → Shrinks b (pull_messages now id limit b).0
  unfolding pull_messages drain
  pull_messages-Shrinks now id limit = elim (Bool-cases (ltb_ℤ limit (pos 0))) [
    | inl e ↦ rw e Shrinks-refl
    | inr e ↦ rw e (
        require_sub_cases b now id (λ x. Shrinks b (pull_from id limit x.0 x.1).0)
          (λ _. Shrinks-refl) (λ s _ _. delete-Shrinks id)
          (λ s h _. overwrite-Shrinks id s (drain s limit).1 h refl))
  ]

  pub unsubscribe-Shrinks : (now : ℕ) (id : String) → Shrinks b (unsubscribe now id b).0
  unfolding unsubscribe
  unsubscribe-Shrinks now id = elim (Option-cases (lookup id b.subs)) [
    | inl e ↦ rw (e, unsubscribe) Shrinks-refl
    | inr (s, e) ↦ rw (e, unsubscribe) (delete-Shrinks id)
  ]

  pub renew-Shrinks :
      (go : Go) (r : Readings) (id text : String) → Shrinks b (renew go r id text b).0
  unfolding renew
  renew-Shrinks go r id text =
      require_sub_cases b r.at_reap id (λ x. Shrinks b (renew_found go r id text x.0 x.1).0)
        (λ _. Shrinks-refl) (λ s _ _. delete-Shrinks id)
        (λ s h _.
          renew_found_cases go r text b id s (λ x. Shrinks b x.0) (λ _. Shrinks-refl)
            (λ d _. overwrite-Shrinks id s _ h refl))
