-- ===== src/Event/Broker/Failures.antt =====
-- Consecutive Notify failures: below the threshold they are only counted, at the threshold the
-- subscription is gone, and a success starts the count again.
use onvif_simulator.Prelude.{
  ℕ, ◌+◌, ◌≤◌, ◌<◌, ◌≡◌, refl, String, Bool, true, false, none, some, List, [], ◌∷◌, arith, length,
  ◌∙◌, ap, sym, not,
}
use onvif_simulator.Prelude.Int.{ℤ, pos, ◌≤ℤ◌}
use onvif_simulator.Prelude.Dict.{lookup, insert}
use onvif_simulator.Prelude.Dict.Lookups.{lookup-insert_self, lookup-retain}
use onvif_simulator.Event.Subscription.{Subscription}
use onvif_simulator.Event.Broker.{
  Broker, BrokerConfig, record_notify_result, notified, reap, is_expired,
}
use onvif_simulator.Event.Broker.Invariant.{IsValid, record_notify_result-IsValid}

-- A run of failed dispatches for one subscription, with the clock readings of their results.
unfoldable pub fail_all : List ℕ → String → Broker → Broker
fail_all [] id b = b
fail_all (now ∷ nows) id b = fail_all nows id (record_notify_result now id false b)

record_notify_result-found :
    (b : Broker) (now : ℕ) (id : String) (success : Bool) (s : Subscription)
    → lookup id b.subs ≡ some s
    → record_notify_result now id success b
      ≡ record b { subs = insert id (notified now b.cfg.notify_failure_threshold success s) b.subs }
unfolding record_notify_result
record_notify_result-found b now id success s h = ground arith

lookup-record_notify_result :
    (b : Broker) (now : ℕ) (id : String) (success : Bool) (s : Subscription)
    → lookup id b.subs ≡ some s
    → lookup id (record_notify_result now id success b).subs
      ≡ some (notified now b.cfg.notify_failure_threshold success s)
lookup-record_notify_result b now id success s h =
    rw (record_notify_result-found b now id success s h)
      (lookup-insert_self id (notified now b.cfg.notify_failure_threshold success s) b.subs)

cfg-record_notify_result :
    (b : Broker) (now : ℕ) (id : String) (success : Bool)
    → (record_notify_result now id success b).cfg ≡ b.cfg
unfolding record_notify_result
cfg-record_notify_result b now id success = ground arith

notified_below :
    (now : ℕ) (threshold : ℤ) (s : Subscription)
    → pos (s.notify_failures + 2) ≤ℤ threshold
    → notified now threshold false s ≡ record s { notify_failures = s.notify_failures + 1 }
unfolding notified
notified_below now threshold s h = ground arith

notified_expired :
    (now later : ℕ) (threshold : ℤ) (s : Subscription)
    → threshold ≤ℤ pos (s.notify_failures + 1)
    → 0 < now
    → now ≤ later
    → is_expired later (notified now threshold false s) ≡ true
unfolding notified
notified_expired now later threshold s h p q = ground arith

-- Failures that stay below the threshold leave the subscription as it was, its end included, but
-- for their count.
fail_all_below :
    (nows : List ℕ) (b : Broker) (id : String) (s : Subscription)
    → lookup id b.subs ≡ some s
    → pos (s.notify_failures + length nows + 1) ≤ℤ b.cfg.notify_failure_threshold
    → lookup id (fail_all nows id b).subs
      ≡ some (record s { notify_failures = s.notify_failures + length nows })
unfolding fail_all
fail_all_below [] b id s h below = h ∙ ground arith
fail_all_below (now ∷ nows) b id s h below =
    let threshold = b.cfg.notify_failure_threshold in
    let b' = record_notify_result now id false b in
    let s' = record s { notify_failures = s.notify_failures + 1 } in
    let h' : lookup id b'.subs ≡ some s' =
      lookup-record_notify_result b now id false s h
      ∙ ap some (notified_below now threshold s (omega arith)) in
    fail_all_below nows b' id s' h' (rw (cfg-record_notify_result b now id false) (omega arith))
    ∙ ground arith

cfg-fail_all : (nows : List ℕ) (id : String) (b : Broker) → (fail_all nows id b).cfg ≡ b.cfg
unfolding fail_all
cfg-fail_all [] id b = refl
cfg-fail_all (now ∷ nows) id b =
    cfg-fail_all nows id (record_notify_result now id false b)
    ∙ cfg-record_notify_result b now id false

fail_all-IsValid :
    (nows : List ℕ) (id : String) (b : Broker) → IsValid b → IsValid (fail_all nows id b)
unfolding fail_all
fail_all-IsValid [] id b v = v
fail_all-IsValid (now ∷ nows) id b v =
    fail_all-IsValid nows id (record_notify_result now id false b)
      (record_notify_result-IsValid b v now id false)

-- Once the failures in a row have reached the threshold, the subscription is gone after the next
-- reap, whatever its requested end was. Clock readings are positive.
pub fail_all_evicts :
    (nows : List ℕ) (b : Broker) (id : String) (s : Subscription) (now later : ℕ)
    → IsValid b
    → lookup id b.subs ≡ some s
    → pos (s.notify_failures + length nows + 1) ≡ b.cfg.notify_failure_threshold
    → 0 < now
    → now ≤ later
    → lookup id (reap later (record_notify_result now id false (fail_all nows id b))).subs ≡ none
unfolding reap
fail_all_evicts nows b id s now later v h at p q =
    let b1 = fail_all nows id b in
    let s1 = record s { notify_failures = s.notify_failures + length nows } in
    let v1 = fail_all-IsValid nows id b v in
    let threshold = b1.cfg.notify_failure_threshold in
    let reached : threshold ≡ pos (s.notify_failures + length nows + 1) =
      ap (λ (c : BrokerConfig). c.notify_failure_threshold) (cfg-fail_all nows id b) ∙ sym at in
    lookup-retain (λ s. not (is_expired later s)) id (record_notify_result now id false b1).subs
      (record_notify_result-IsValid b1 v1 now id false).distinct
    ∙ ground (
      arith,
      lookup-record_notify_result b1 now id false s1 (fail_all_below nows b id s h (ground arith)),
      notified_expired now later threshold s1,
    )

-- One success clears the count, so that as many failures as before are tolerated again.
pub fail_all_after_success :
    (nows : List ℕ) (b : Broker) (id : String) (s : Subscription) (now : ℕ)
    → lookup id b.subs ≡ some s
    → pos (length nows + 1) ≤ℤ b.cfg.notify_failure_threshold
    → lookup id (fail_all nows id (record_notify_result now id true b)).subs
      ≡ some (record s { notify_failures = length nows })
unfolding notified
fail_all_after_success nows b id s now h below =
    let s' = record s { notify_failures = 0 } in
    fail_all_below nows (record_notify_result now id true b) id s'
      (lookup-record_notify_result b now id true s h)
      (rw (cfg-record_notify_result b now id true) (omega arith))
    ∙ ground arith
