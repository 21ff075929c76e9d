-- ===== src/Events/Pairing.antt =====
-- What the outbox promises its consumer, `deliver_notifications`.
use ai_system_trading.Prelude.{ℕ, ◌+◌, ◌<◌, ◌≤◌, ◌≡◌, refl, List, [], ◌∷◌, ◌++◌, arith}
use ai_system_trading.Prelude.Rows.{All, All-append, length, length-append}
use ai_system_trading.Prelude.Table.{UniqueIds, UniqueIds-append}
use ai_system_trading.Events.Publish.{
  SystemEvent, OutboxEvent, EventLog, NewEvent, publish_system_event,
}

-- What the delivery worker matches on: each outbox row and its system event, in step.
pub data Paired : List SystemEvent → List OutboxEvent → Type 0 where
  none_left : Paired [] []
  pair :
      {e : SystemEvent} {o : OutboxEvent} {es : List SystemEvent} {os : List OutboxEvent}
      → e.correlation_id ≡ o.correlation_id
      → e.event_type ≡ o.event_type
      → e.payload ≡ o.payload
      → Paired es os
      → Paired (e ∷ es) (o ∷ os)

pub record IsValid (log : EventLog) : Type 0 where
  pub paired : Paired log.system_events log.outbox
  pub used : All (λ e. e.id < log.fresh) log.system_events
  pub unique : UniqueIds (λ e. e.id) log.system_events

Paired-append :
    {es fs : List SystemEvent} {os ps : List OutboxEvent}
    → Paired es os
    → Paired fs ps
    → Paired (es ++ fs) (os ++ ps)
Paired-append none_left q = q
Paired-append (pair c t p rest) q = pair c t p (Paired-append rest q)

All-weaken :
    (n m : ℕ) (es : List SystemEvent) → n ≤ m → All (λ e. e.id < n) es → All (λ e. e.id < m) es
All-weaken n m [] h a = tt
All-weaken n m (e ∷ es) h a = (omega arith, All-weaken n m es h a.1)

-- Every published event keeps the pairing: the outbox has exactly one row for each system
-- event, in the same order, with the same correlation id, type and payload, and all system
-- events have different identifiers, each below the next unused one.
pub publish_system_event-IsValid :
    (e : NewEvent) (log : EventLog) → IsValid log → IsValid (publish_system_event e log).1
unfolding publish_system_event
publish_system_event-IsValid e log v = record {
  paired = Paired-append v.paired (pair refl refl refl none_left);
  used =
      All-append (λ x. x.id < log.fresh + 2) log.system_events _
        (All-weaken log.fresh (log.fresh + 2) log.system_events (omega arith) v.used)
        (omega arith, tt);
  unique = UniqueIds-append (λ x. x.id) _ log.fresh log.system_events v.used (omega arith) v.unique;
}

-- Taking an identifier for a row of another table keeps the pairing.
pub take_id-IsValid :
    (log : EventLog) → IsValid log → IsValid (record log { fresh = log.fresh + 1 })
take_id-IsValid log v = record {
  paired = v.paired;
  used = All-weaken log.fresh (log.fresh + 1) log.system_events (omega arith) v.used;
  unique = v.unique;
}

pub publish_system_event_one :
    (e : NewEvent) (log : EventLog)
    → length (publish_system_event e log).1.system_events ≡ length log.system_events + 1
unfolding publish_system_event
publish_system_event_one e log = length-append log.system_events _
