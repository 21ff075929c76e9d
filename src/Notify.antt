-- ===== src/Notify.antt =====
-- app/notifications/application/deliver_notifications.py: the notification worker's polls over
-- the outbox.
pub mod Types
mod Wording
pub mod Deliver
pub mod Weight
pub mod Steps
pub mod Batch
pub mod Polls
mod Tests
