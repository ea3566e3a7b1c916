-- ===== src/Event/Subscription.antt =====
-- internal/event/subscription.go: one subscription with its bounded queue and its topic filter.
pub mod Queue
use Prim.Native.String.{◌++◌}
use onvif_simulator.Prelude.{
  ℕ, String, Bool, true, false, ◌||◌, List, [], ◌∷◌, ite, str_dec, str_eq, has_prefix, length, take,
  drop, leb, ltb, ◌&&◌, if◌then◌else◌,
}
use mathlib.Core.List.{◌++◌ as append}
use onvif_simulator.Prelude.Int.{ℤ, pos, negsuc}

pub data SubKind : Type 0 where
  sub_kind_pull sub_kind_push : SubKind

pub record ConsumerEpr : Type 0 where
  pub address : String
  pub reference_params : String

-- eventsvc.NotificationMessage
pub record NotificationMessage : Type 0 where
  pub subscription_reference : String
  pub topic : String
  pub message : String

-- An instant is a number of nanoseconds.
pub record Subscription : Type 0 where
  pub id : String
  pub address : String
  pub filter : String
  pub termination_time : ℕ
  pub queue : List NotificationMessage
  pub kind : SubKind
  pub consumer : ConsumerEpr
  pub notify_failures : ℕ

abbrev pub default_queue_depth : ℕ
default_queue_depth = 256

-- The slice of the queue without its oldest message, `s.queue[1:]`.
unfoldable pub enqueue : Subscription → NotificationMessage → Subscription
enqueue s msg =
    let q = if leb default_queue_depth (length s.queue) then drop 1 s.queue else s.queue in
    record s { queue = append q (msg ∷ []) }

-- How many messages a request with this limit takes out of `n` that wait.
unfoldable pub drain_count : ℤ → ℕ → ℕ
drain_count (pos limit) n = if ltb 0 limit && ltb limit n then limit else n
drain_count (negsuc limit) n = n

unfoldable pub drain : Subscription → ℤ → List NotificationMessage × Subscription
unfolding drain_count
drain s limit =
    let n = drain_count limit (length s.queue) in
    (take n s.queue, record s { queue = drop n s.queue })

unfoldable pub matches_topic : Subscription → String → Bool
matches_topic s topic =
    ite (str_dec s.filter "") true (str_eq topic s.filter || has_prefix topic (s.filter ++ "/"))
