-- ===== src/Notify/Types.antt =====
-- The rows and the collaborators of app/notifications/application/deliver_notifications.py.
use Prim.Native.String.{String}
use ai_system_trading.Prelude.{ℕ, Bool, true, false, Option, List}
use ai_system_trading.Events.{SystemEvent, EventLog}

-- `outbox_event.status`
pub data EventStatus : Type 0 where
  pending published failed : EventStatus

-- The columns of `outbox_event` that the delivery reads or writes.
pub record QueuedEvent : Type 0 where
  pub id : ℕ
  pub event_type : String
  pub correlation_id : ℕ
  pub status : EventStatus
  pub attempts : ℕ
  pub available_at : ℕ
  pub published_at : Option ℕ

-- `notification.status`
pub data NotificationStatus : Type 0 where
  queued sent failed acknowledged : NotificationStatus

pub record Notification : Type 0 where
  pub id : ℕ
  pub workspace_id : ℕ
  pub event_id : ℕ
  pub channel : String
  pub recipient_ref : String
  pub status : NotificationStatus
  pub delivery_attempts : ℕ
  pub sent_at : Option ℕ

-- The system events with what was published of them, the outbox rows, and the notifications.
pub record Db : Type 0 where
  pub log : EventLog
  pub queue : List QueuedEvent
  pub notifications : List Notification

-- How an adapter's `send` ends: normally, with an error that the delivery catches, or with
-- another exception.
pub data Sending : Type 0 where
  delivered refused crashed : Sending

pub record Recipient : Type 0 where
  pub channel : String
  pub recipient_ref : String

-- `adapters` and `recipient_resolver`: what `adapters.get(channel)` gives, with the end that a
-- message of an event to a recipient has, and whom an event is for.
pub record Outside : Type 0 where
  pub send : (channel : String) → Option ((recipient : String) → SystemEvent → Sending)
  pub resolve : QueuedEvent → SystemEvent → List Recipient
  -- rows that another worker has locked
  pub locked : QueuedEvent → Bool

pub data DeliveryError : Type 0 where
  send_crashed : DeliveryError

abbrev pub is_pending : EventStatus → Bool
is_pending pending = true
is_pending _ = false

-- `notification.status in ("sent", "acknowledged")`
abbrev pub has_got : NotificationStatus → Bool
has_got sent = true
has_got acknowledged = true
has_got _ = false
