-- ===== src/Events.antt =====
-- internal/events/redis.go: the consumer of the Redis stream. The names of the streams and the log
-- lines are not modelled.
pub mod Broker
pub mod Connect
pub mod Backoff
pub mod Retry
pub mod Consume
pub mod Delivery
pub mod Outage
mod Tests
