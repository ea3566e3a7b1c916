-- ===== src/Event/Subscription/Queue.antt =====
-- The queue of a pull-point subscription: bounded, first in, first out, the oldest dropped first.
use Prim.Native.Nat.{min}
use mathlib.Core.List.{append-nil, append_assoc}
use onvif_simulator.Prelude.{
  ◌-◌, ◌≤◌, ◌≡◌, List, [], ◌∷◌, ◌++◌, arith, length, last, drop, drop-append, last-append-last,
  length-append, length-drop, length-take, take-drop, ap, ◌∙◌, sym, if◌then◌else◌, Bool-cases, inl,
  inr, leb,
}
use onvif_simulator.Prelude.Int.{ℤ, pos, negsuc, ltb_ℤ, pos_part}
use onvif_simulator.Event.Subscription.{
  Subscription, NotificationMessage, enqueue, drain, drain_count, default_queue_depth,
}

pub enqueue-eq-last :
    (s : Subscription) (m : NotificationMessage)
    → length s.queue ≤ default_queue_depth
    → (enqueue s m).queue ≡ last default_queue_depth (s.queue ++ m ∷ [])
unfolding enqueue
enqueue-eq-last s m h = elim (Bool-cases (leb default_queue_depth (length s.queue))) [
  | inl full ↦ rw full (
      sym (drop-append 1 s.queue (m ∷ []) (ground arith))
      ∙ ap (λ n. drop n (s.queue ++ m ∷ [])) {x = 1}
          (ground (arith, length-append s.queue (m ∷ []))))
  | inr room ↦ rw room (
      ap (λ n. drop n (s.queue ++ m ∷ [])) {x = 0} (ground (arith, length-append s.queue (m ∷ []))))
]

pub length-enqueue-le :
    (s : Subscription) (m : NotificationMessage)
    → length s.queue ≤ default_queue_depth
    → length (enqueue s m).queue ≤ default_queue_depth
length-enqueue-le s m h = rw (enqueue-eq-last s m h) (
    omega
      (arith, length-drop (length (s.queue ++ m ∷ []) - default_queue_depth) (s.queue ++ m ∷ [])))

-- The queue after a sequence of messages.
pub enqueue_all : Subscription → List NotificationMessage → Subscription
enqueue_all s [] = s
enqueue_all s (m ∷ ms) = enqueue_all (enqueue s m) ms

-- A subscription whose queue holds at most 256 messages has, after any further messages, the
-- newest 256 of all of them in the order of their arrival.
pub enqueue_all-eq-last :
    (s : Subscription) (ms : List NotificationMessage)
    → length s.queue ≤ default_queue_depth
    → (enqueue_all s ms).queue ≡ last default_queue_depth (s.queue ++ ms)
unfolding enqueue_all
enqueue_all-eq-last s [] h = rw append-nil (ap (λ n. drop n s.queue) {x = 0} (omega arith))
enqueue_all-eq-last s (m ∷ ms) h =
    enqueue_all-eq-last (enqueue s m) ms (length-enqueue-le s m h)
    ∙ (rw (enqueue-eq-last s m h) (
        last-append-last default_queue_depth (s.queue ++ m ∷ []) ms
        ∙ ap (last default_queue_depth) (append_assoc s.queue (m ∷ []) ms)))

-- A drain hands out the front of the queue and leaves the rest, in order and without a gap. It
-- hands out at most `limit` messages where the limit is positive, and otherwise all of them.
drain_lem :
    (s : Subscription) (limit : ℤ)
    → ((drain s limit).0 ++ (drain s limit).1.queue ≡ s.queue)
      × (length (drain s limit).0
          ≡ (if ltb_ℤ (pos 0) limit then min (pos_part limit) (length s.queue) else length s.queue))
unfolding drain
drain_lem s (pos l) = (
  take-drop (drain_count (pos l) (length s.queue)) s.queue,
  ground (arith, length-take (drain_count (pos l) (length s.queue)) s.queue),
)
drain_lem s (negsuc l) =
    (take-drop (length s.queue) s.queue, ground (arith, length-take (length s.queue) s.queue))
