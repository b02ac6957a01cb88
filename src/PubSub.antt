-- ===== src/PubSub.antt =====
-- Subscriptions and event notifications: include/modbus_pp/pubsub and src/pubsub.
pub mod Event
pub mod Subscriber
pub mod Publisher
pub mod Delivered
mod Tests
