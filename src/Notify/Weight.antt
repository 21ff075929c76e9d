-- ===== src/Notify/Weight.antt =====
-- How many deliveries an outbox can still take, and that each one uses some of it up.
use ai_system_trading.Prelude.{
  ℕ, ◌+◌, ◌-◌, ◌≤◌, ◌<◌, ◌≡◌, refl, ◌∙◌, Bool, true, ◌&&◌, Option, none, some, List, [], ◌∷◌, inl,
  inr, arith, Bool-cases, Option-cases, if◌then◌else◌, Result, ok, err, Returns, >>=-Returns,
  Returns-ok, ◌==◌, nat_equality, string_equality,
}
use ai_system_trading.Prelude.Rows.{find, All}
use ai_system_trading.Prelude.Table.{UniqueIds, sum}
use ai_system_trading.Events.{SystemEvent}
use ai_system_trading.Notify.Types.{
  is_pending, QueuedEvent, Notification, Db, Sending, Recipient, Outside, DeliveryError,
}
use ai_system_trading.Notify.Deliver.{
  give_up_event_type, row_for, already_got, record_sending, send_to, send_each,
}

abbrev pub is_give_up : QueuedEvent → Bool
is_give_up e = e.event_type == give_up_event_type

-- The deliveries left to an event: its own, and those of the event that gives it up.
abbrev pub weight : QueuedEvent → ℕ
weight e = if is_pending e.status then 5 - e.attempts + (if is_give_up e then 0 else 6) else 0

-- The invariant of the outbox: no event waits that has used up its attempts.
abbrev pub Waiting : QueuedEvent → Type 0
Waiting e = is_pending e.status ≡ true → e.attempts < 5

pub record InOrder (db : Db) : Type 0 where
  pub unique : UniqueIds (λ e. e.id) db.queue
  pub used : All (λ e. e.id < db.log.fresh) db.queue
  pub waiting : All Waiting db.queue

abbrev pub total : Db → ℕ
total db = sum (λ e. e.id) weight db.queue

abbrev pub with_id : ℕ → QueuedEvent → Bool
with_id i e = e.id == i

-- The sendings change no row of the outbox.
pub record Untouched (before after : Db) : Type 0 where
  pub queue : after.queue ≡ before.queue
  pub grown : before.log.fresh ≤ after.log.fresh

record_sending-Untouched :
    (now : ℕ) (n : Notification) (how : Sending) (db : Db)
    → Returns (λ r. Untouched db r.1) (record_sending now n how db)
unfolding record_sending
record_sending-Untouched now n Sending.delivered db = record { queue = refl; grown = omega arith }
record_sending-Untouched now n Sending.refused db = record { queue = refl; grown = omega arith }
record_sending-Untouched now n Sending.crashed db = tt

unchanged : (db : Db) → Untouched db db
unchanged db = record { queue = refl; grown = omega arith }

row_for-Untouched :
    (event : SystemEvent) (r : Recipient) (db : Db) → Untouched db (row_for event r db).1
unfolding row_for
row_for-Untouched event r db = by_row (find _ db.notifications) refl
  where
    by_row :
        (o : Option Notification)
        → find
            (λ n.
              n.event_id == event.id
              && (n.channel == r.channel && n.recipient_ref == r.recipient_ref))
            db.notifications
          ≡ o
        → Untouched db (row_for event r db).1
    by_row none missing = rw (missing, row_for) (record { queue = refl; grown = omega arith })
    by_row (some n) found = rw (found, row_for) (unchanged db)

both :
    (first second third : Db)
    → Untouched first second
    → Untouched second third
    → Untouched first third
both first second third a b = record {
  queue = b.queue ∙ a.queue;
  grown = omega (arith, a.grown, b.grown);
}

weaken :
    (before mid : Db) (r : Result DeliveryError (Bool × Db))
    → Untouched before mid
    → Returns (λ q. Untouched mid q.1) r
    → Returns (λ q. Untouched before q.1) r
weaken before mid (ok q) a b = both before mid q.1 a b
weaken before mid (err e) a b = tt

send_to-Untouched :
    (o : Outside) (now : ℕ) (event : SystemEvent) (r : Recipient) (db : Db)
    → Returns (λ q. Untouched db q.1) (send_to o now event r db)
unfolding send_to
send_to-Untouched o now event r db = elim (Option-cases (o.send r.channel)) [
  | inl missing ↦ rw (missing, send_to) (unchanged db)
  | inr (send, found) ↦ elim (Bool-cases (already_got event r db)) [
    | inl got ↦ rw (found, send_to, got) (unchanged db)
    | inr fresh ↦
        rw (found, send_to, fresh)
          (weaken db (row_for event r db).1 _ (row_for-Untouched event r db) (
            record_sending-Untouched now (row_for event r db).0 (send r.recipient_ref event)
              (row_for event r db).1))
  ]
]

pub send_each-Untouched :
    (o : Outside) (now : ℕ) (event : SystemEvent) (rs : List Recipient) (db : Db)
    → Returns (λ q. Untouched db q.1) (send_each o now event rs db)
unfolding send_each
send_each-Untouched o now event [] db = unchanged db
send_each-Untouched o now event (r ∷ rs) db =
    >>=-Returns (λ q. Untouched db q.1) (send_to o now event r db) _
      λ q first.
        >>=-Returns (λ p. Untouched db p.1) (send_each o now event rs q.1) _
          λ p rest.
            both db q.1 p.1
              (Returns-ok (λ x. Untouched db x.1) (send_to o now event r db) q
                (send_to-Untouched o now event r db) first)
              (Returns-ok (λ x. Untouched q.1 x.1) (send_each o now event rs q.1) p
                (send_each-Untouched o now event rs q.1) rest)
