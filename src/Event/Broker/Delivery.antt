-- ===== src/Event/Broker/Delivery.antt =====
-- What `Publish` delivers: the messages that pull points queue, and the dispatches for consumers.
use onvif_simulator.Prelude.{
  ℕ, ◌≤◌, ◌≡◌, refl, String, Bool, true, false, ◌&&◌, Option, none, some, List, [], ◌∷◌, ◌++◌,
  arith, length, last, keep, if◌then◌else◌, Bool-cases, Option-cases, inl, inr, str_eq, leb, ◌∙◌,
  take_all, drop_all,
}
use onvif_simulator.Prelude.Int.{pos}
use onvif_simulator.Prelude.Dict.{Dict, lookup, AllEntries, IsDistinct, insert}
use onvif_simulator.Prelude.Dict.Lookups.{lookup-update_all, lookup-insert_self}
use onvif_simulator.Prelude.Dict.Entries.{AllEntries-lookup}
use onvif_simulator.Event.Subscription.{
  Subscription, SubKind, sub_kind_pull, sub_kind_push, enqueue, drain, matches_topic,
  default_queue_depth,
}
use onvif_simulator.Event.Subscription.Queue.{enqueue-eq-last}
use onvif_simulator.Event.Broker.{
  Broker, ok, PushDispatch, publish, deliver, message_for, dispatch_for, topic_enabled, pushes,
}
use onvif_simulator.Event.Broker.Requests.{pull_messages}
use onvif_simulator.Event.Broker.Invariant.{IsValid, IsKept}

-- Whether a message of `topic` is due to a subscription of this kind at `now`.
abbrev pub is_due : SubKind → ℕ → String → Subscription → Bool
is_due sub_kind_pull now topic s = elim s.kind [
  | sub_kind_pull ↦ leb now s.termination_time && matches_topic s topic
  | sub_kind_push ↦ false
]
is_due sub_kind_push now topic s = elim s.kind [
  | sub_kind_push ↦ leb now s.termination_time && matches_topic s topic
  | sub_kind_pull ↦ false
]

-- The subscription with the message at the end of its queue, the newest 256 messages kept.
abbrev pub received : String → String → Subscription → Subscription
received topic message s = record s {
  queue = last default_queue_depth (s.queue ++ message_for s topic message ∷ []);
}

enqueue-eq-received :
    (topic message : String) (s : Subscription)
    → length s.queue ≤ default_queue_depth
    → enqueue s (message_for s topic message) ≡ received topic message s
unfolding enqueue
enqueue-eq-received topic message s h =
    λ i. record s { queue = enqueue-eq-last s (message_for s topic message) h i }

deliver-eq :
    (now : ℕ) (topic message : String) (s : Subscription)
    → length s.queue ≤ default_queue_depth
    → deliver now topic message s
      ≡ (if is_due sub_kind_pull now topic s then received topic message s else s)
unfolding deliver
deliver-eq now topic message s h = ground (arith, enqueue-eq-received topic message s)

-- Publish of an enabled topic appends the message to the queue of each live pull point whose
-- filter matches, keeping the newest 256, and changes no other subscription; a topic that is
-- disabled or unknown changes none.
pub lookup-publish :
    (b : Broker) (now : ℕ) (topic message id : String)
    → IsValid b
    → lookup id (publish now topic message b).0.subs ≡ elim (lookup id b.subs) [
      | none ↦ none
      | some s ↦ some (
          if topic_enabled topic b.cfg.topics && is_due sub_kind_pull now topic s
          then received topic message s
          else s)
    ]
unfolding publish
lookup-publish b now topic message id v = elim (Bool-cases (topic_enabled topic b.cfg.topics)) [
  | inr e ↦ ground arith
  | inl e ↦ elim (Option-cases (lookup id b.subs)) [
    | inl h ↦ ground (arith, lookup-update_all (deliver now topic message) id b.subs)
    | inr (s, h) ↦ ground (
      arith,
      lookup-update_all (deliver now topic message) id b.subs,
      deliver-eq now topic message s (AllEntries-lookup IsKept id s b.subs v.kept h).bounded,
    )
  ]
]

-- The dispatches that a subscription is due.
abbrev pub due_dispatch : ℕ → String → String → Option Subscription → List PushDispatch
due_dispatch now topic message none = []
due_dispatch now topic message (some s) =
    if is_due sub_kind_push now topic s then dispatch_for s topic message ∷ [] else []

abbrev pub dispatches_to : String → List PushDispatch → List PushDispatch
dispatches_to id = keep (λ d. str_eq d.subscription_id id)

pushes_once :
    (now : ℕ) (topic message id : String) (m : Dict Subscription)
    → IsDistinct m
    → AllEntries IsKept m
    → dispatches_to id (pushes now topic message m) ≡ due_dispatch now topic message (lookup id m)
unfolding pushes lookup
pushes_once now topic message id [] d h = refl
pushes_once now topic message id ((k, s) ∷ m) d h =
    ground (arith, pushes_once now topic message id m d.1 h.1, h.0.own_key)

-- Of the dispatches that Publish hands to the notifier, those for one identifier are a single one
-- with the subscription's address and consumer, if the topic is enabled and the identifier has a
-- live push subscription whose filter matches, and none otherwise.
pub dispatches_to-publish :
    (b : Broker) (now : ℕ) (topic message id : String)
    → IsValid b
    → dispatches_to id (publish now topic message b).1 ≡ (
        if topic_enabled topic b.cfg.topics
        then due_dispatch now topic message (lookup id b.subs)
        else [])
unfolding publish
dispatches_to-publish b now topic message id v =
    ground (arith, pushes_once now topic message id b.subs v.distinct v.kept)

-- PullMessages on a live subscription is a drain of its queue.
pub pull_messages_live :
    (b : Broker) (now limit : ℕ) (id : String) (s : Subscription)
    → lookup id b.subs ≡ some s
    → now ≤ s.termination_time
    → pull_messages now id (pos limit) b ≡ (
      record b { subs = insert id (drain s (pos limit)).1 b.subs },
      ok (record { termination_time = s.termination_time; messages = (drain s (pos limit)).0 }),
    )
unfolding pull_messages
pull_messages_live b now limit id s h live = ground arith

drain_all : (s : Subscription) → drain s (pos 0) ≡ (s.queue, record s { queue = [] })
unfolding drain
drain_all s = ground (arith, take_all s.queue, drop_all s.queue)

-- A pull point that is live at the Publish of an enabled topic which its filter matches, and still
-- live at a later unlimited PullMessages, gets everything queued before with the message at the
-- end, the newest 256 messages of it; its queue is empty afterwards.
pub pull_messages-publish :
    (b : Broker) (now later : ℕ) (topic message id : String) (s : Subscription)
    → IsValid b
    → lookup id b.subs ≡ some s
    → s.kind ≡ sub_kind_pull
    → now ≤ s.termination_time
    → later ≤ s.termination_time
    → matches_topic s topic ≡ true
    → topic_enabled topic b.cfg.topics ≡ true
    → let after = pull_messages later id (pos 0) (publish now topic message b).0 in
      (after.1
        ≡ ok (record {
          termination_time = s.termination_time;
          messages = last default_queue_depth (s.queue ++ message_for s topic message ∷ []);
        }))
      × (lookup id after.0.subs ≡ some (record s { queue = [] }))
pull_messages-publish b now later topic message id s v h kind live live' m e =
    let b' = (publish now topic message b).0 in
    let s' = received topic message s in
    let h' : lookup id b'.subs ≡ some s' = lookup-publish b now topic message id v ∙ ground arith in
    rw (pull_messages_live b' later 0 id s' h' live', drain_all s')
      (refl, lookup-insert_self id (record s' { queue = [] }) b'.subs)
