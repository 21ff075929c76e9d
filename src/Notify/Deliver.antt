-- ===== src/Notify/Deliver.antt =====
-- `deliver_pending_notifications`, with `claim_pending_outbox_events` and `_announce_give_up`.
use Prim.Native.Nat.{Ordering}
use Prim.Native.String.{String, compare}
use ai_system_trading.Prelude.{
  ℕ, zero, suc, ◌+◌, ◌*◌, ◌^◌, Bool, true, false, not, ◌&&◌, ◌||◌, none, some, List, [], ◌∷◌, ◌++◌,
  if◌then◌else◌, leb, Result, ok, err, ◌>>=◌, ◌==◌, nat_equality, string_equality,
}
use ai_system_trading.Prelude.Rows.{find, select}
use ai_system_trading.Prelude.Table.{save}
use ai_system_trading.Events.{
  Severity, words, uuid, number, texts, SystemEvent, NewEvent, publish_system_event,
}
use ai_system_trading.Notify.Wording.{give_up_message}
use ai_system_trading.Notify.Types.{
  EventStatus, pending, published, is_pending, QueuedEvent, NotificationStatus, queued, sent,
  has_got, Notification, Db, Sending, delivered, refused, crashed, Recipient, Outside,
  DeliveryError, send_crashed,
}

abbrev pub max_attempts : ℕ
max_attempts = 5

abbrev backoff_base_seconds : ℕ
backoff_base_seconds = 30

abbrev pub batch_size : ℕ
batch_size = 50

abbrev pub give_up_event_type : String
give_up_event_type = "notification_delivery_failed"

-- `order_by(available_at)`
abbrev pub insert_by_time : QueuedEvent → List QueuedEvent → List QueuedEvent
insert_by_time e [] = e ∷ []
insert_by_time e (f ∷ fs) =
    let rest = insert_by_time e fs in
    if leb e.available_at f.available_at then e ∷ f ∷ fs else f ∷ rest

abbrev pub by_time : List QueuedEvent → List QueuedEvent
by_time [] = []
by_time (e ∷ es) = insert_by_time e (by_time es)

abbrev pub take {ℓ} : {A : Type ℓ} → ℕ → List A → List A
take zero xs = []
take (suc n) [] = []
take (suc n) (x ∷ xs) = x ∷ take n xs

abbrev pub is_due : Outside → ℕ → QueuedEvent → Bool
is_due o now e = is_pending e.status && (leb e.available_at now && not (o.locked e))

unfoldable pub claim_pending_outbox_events : Outside → ℕ → Db → List QueuedEvent
claim_pending_outbox_events o now db = take batch_size (by_time (select (is_due o now) db.queue))

abbrev for_recipient : SystemEvent → Recipient → Notification → Bool
for_recipient event r n =
    n.event_id == event.id && (n.channel == r.channel && n.recipient_ref == r.recipient_ref)

-- The recipient's row: the one there is, or a new one that is queued.
unfoldable pub row_for : SystemEvent → Recipient → Db → Notification × Db
row_for event r db = elim (find (for_recipient event r) db.notifications) [
  | some n ↦ (n, db)
  | none ↦
      let n : Notification = record {
        id = db.log.fresh;
        workspace_id = event.workspace_id;
        event_id = event.id;
        channel = r.channel;
        recipient_ref = r.recipient_ref;
        status = queued;
        delivery_attempts = 0;
        sent_at = none;
      } in
      (
        n,
        record db {
          notifications = db.notifications ++ n ∷ [];
          log = record db.log { fresh = db.log.fresh + 1 };
        },
      )
]

abbrev pub already_got : SystemEvent → Recipient → Db → Bool
already_got event r db = elim (find (for_recipient event r) db.notifications) [
  | none ↦ false
  | some n ↦ has_got n.status
]

-- The row after the sending, and whether it failed.
unfoldable pub record_sending : ℕ → Notification → Sending → Db → Result DeliveryError (Bool × Db)
record_sending now n delivered db = ok (
  false,
  record db {
    notifications =
        save (λ x. x.id) (record n { status = sent; sent_at = some now }) db.notifications;
  },
)
record_sending now n refused db = ok (
  true,
  record db {
    notifications =
        save (λ x. x.id)
          (record n {
            status = NotificationStatus.failed;
            delivery_attempts = n.delivery_attempts + 1;
          })
          db.notifications;
  },
)
record_sending now n crashed db = err send_crashed

-- One recipient: none of the two `continue`s, then the sending.
unfoldable pub send_to :
    Outside → ℕ → SystemEvent → Recipient → Db → Result DeliveryError (Bool × Db)
unfolding row_for record_sending
send_to o now event r db = elim (o.send r.channel) [
  | none ↦ ok (false, db)
  | some send ↦
      if already_got event r db
      then ok (false, db)
      else (let (n, db') = row_for event r db in
          record_sending now n (send r.recipient_ref event) db')
]

-- All recipients, with whether one has failed.
unfoldable pub send_each :
    Outside → ℕ → SystemEvent → List Recipient → Db → Result DeliveryError (Bool × Db)
unfolding send_to
send_each o now event [] db = ok (false, db)
send_each o now event (r ∷ rs) db = do
  (failed, db') ← send_to o now event r db
  (any_failed, db'') ← send_each o now event rs db'
  ok (failed || any_failed, db'')

-- The distinct channels of the event's failed notifications, in the order of their names.
abbrev is_failed : NotificationStatus → Bool
is_failed NotificationStatus.failed = true
is_failed _ = false

abbrev insert_text : String → List String → List String
insert_text s [] = s ∷ []
insert_text s (t ∷ ts) =
    let rest = insert_text s ts in
    elim (compare s t) [ Ordering.lt ↦ s ∷ t ∷ ts | Ordering.eq ↦ t ∷ ts | Ordering.gt ↦ t ∷ rest ]

abbrev pub failed_channels : ℕ → List Notification → List String
failed_channels event_id [] = []
failed_channels event_id (n ∷ ns) =
    let rest = failed_channels event_id ns in
    if n.event_id == event_id && is_failed n.status then insert_text n.channel rest else rest

-- The row that `publish_system_event` adds to the outbox, with the database's defaults.
unfoldable pub enqueue : NewEvent → ℕ → Db → Db
enqueue e now db =
    let (event, log) = publish_system_event e db.log in
    let row : QueuedEvent = record {
      id = log.fresh;
      event_type = e.event_type;
      correlation_id = event.correlation_id;
      status = pending;
      attempts = 0;
      available_at = now;
      published_at = none;
    } in
    record db { log = record log { fresh = log.fresh + 1 }; queue = db.queue ++ row ∷ [] }

unfoldable pub give_up_event : QueuedEvent → SystemEvent → List String → NewEvent
unfolding give_up_message
give_up_event e event channels = record {
  workspace_id = event.workspace_id;
  severity = Severity.error;
  category = "notification";
  event_type = give_up_event_type;
  reason_code = some "delivery_failed";
  message = give_up_message event.message channels;
  payload =
      ("original_event_type", words event.event_type)
      ∷ ("original_event_id", uuid event.id)
      ∷ ("failed_channels", texts channels)
      ∷ ("attempts", number e.attempts)
      ∷ [];
  aggregate_type = "outbox_event";
  aggregate_id = e.id;
  source_type = "notification_worker";
  source_id = none;
  target_type = none;
  target_id = none;
  correlation_id = none;
}

unfoldable pub announce_give_up : ℕ → QueuedEvent → SystemEvent → Db → Db
unfolding enqueue give_up_event
announce_give_up now e event db =
    if e.event_type == give_up_event_type
    then db
    else enqueue (give_up_event e event (failed_channels event.id db.notifications)) now db

abbrev update : QueuedEvent → Db → Db
update e db = record db { queue = save (λ x. x.id) e db.queue }

-- What the event's row and the queue become when its recipients have been tried.
unfoldable pub conclude_event : ℕ → QueuedEvent → SystemEvent → Bool → Db → Db
unfolding announce_give_up
conclude_event now e event false db =
    update (record e { status = published; published_at = some now }) db
conclude_event now e event true db =
    let tried = record e { attempts = e.attempts + 1 } in
    if leb max_attempts tried.attempts
    then (let given_up = record tried { status = EventStatus.failed } in
        announce_give_up now given_up event (update given_up db))
    else update (record tried { available_at = now + backoff_base_seconds * 2 ^ tried.attempts }) db

-- One event of the batch, with whether it counts as processed.
unfoldable pub deliver_event : Outside → ℕ → QueuedEvent → Db → Result DeliveryError (ℕ × Db)
unfolding send_each conclude_event
deliver_event o now e db =
    elim (find (λ s. s.correlation_id == e.correlation_id) db.log.system_events) [
      | none ↦
          ok (0, update (record e { status = EventStatus.failed; attempts = e.attempts + 1 }) db)
      | some event ↦ send_each o now event (o.resolve e event) db >>= λ after.
          ok (1, conclude_event now e event after.0 after.1)
    ]

unfoldable pub deliver_each : Outside → ℕ → List QueuedEvent → Db → Result DeliveryError (ℕ × Db)
unfolding deliver_event
deliver_each o now [] db = ok (0, db)
deliver_each o now (e ∷ es) db = do
  (one, db') ← deliver_event o now e db
  (processed, db'') ← deliver_each o now es db'
  ok (one + processed, db'')

-- An exception leaves the batch uncommitted.
unfoldable pub deliver_pending_notifications : Outside → ℕ → Db → Result DeliveryError (ℕ × Db)
unfolding claim_pending_outbox_events deliver_each
deliver_pending_notifications o now db =
    deliver_each o now (claim_pending_outbox_events o now db) db
