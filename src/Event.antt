-- ===== src/Event.antt =====
-- internal/event: the subscriptions, the broker that owns them and its durations.
pub mod Duration
pub mod Subscription
pub mod Broker
mod Samples
mod Tests
