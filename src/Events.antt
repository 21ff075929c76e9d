-- ===== src/Events.antt =====
-- app/notifications/application/publish_event.py, with the two rows it writes
-- (app/models/audit.py). Identifiers are uuids in the code and only compared, so they are
-- numbers; `fresh` stands for `uuid4()` and the database's `gen_random_uuid()`.
mod Publish
pub mod Pairing
mod Tests
pub use Publish.{
  Severity, info, warning, error, critical, Value, words, uuid, uuids, coded, flag, number, texts,
  amount, null, Payload, SystemEvent, OutboxEvent, EventLog, NewEvent,
}
unfoldable pub use Publish.{publish_system_event, update_payload}
