-- ===== src/Broker.antt =====
-- How the services take messages from the broker: pkg/amqp/consume.go.
mod Tests
pub mod Consume
pub mod Backoff
pub mod Requeue
