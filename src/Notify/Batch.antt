-- ===== src/Notify/Batch.antt =====
-- A batch and a sequence of polls.
use ai_system_trading.Prelude.{
  ℕ, ◌+◌, ◌≤◌, ◌<◌, ◌≡◌, ◌≢◌, refl, true, some, List, [], ◌∷◌, inl, inr, arith, Option-cases,
  Returns, >>=-Returns, Returns-ok, ◌==◌, nat_equality,
}
use mathlib.Core.Path.{ap}
use ai_system_trading.Prelude.Rows.{find, All}
use ai_system_trading.Prelude.Table.{UniqueIds, sum}
use ai_system_trading.Notify.Types.{is_pending, QueuedEvent, Db, Outside}
use ai_system_trading.Notify.Deliver.{send_each, deliver_event, deliver_each}
use ai_system_trading.Notify.Weight.{
  weight, InOrder, total, with_id, Untouched, send_each-Untouched,
}
use ai_system_trading.Notify.Steps.{Step, put-Step, conclude_event-Step, used_later}

-- A claimed row: it is in the outbox, pending, and not out of attempts.
pub record Claimed (queue : List QueuedEvent) (e : QueuedEvent) : Type 0 where
  pub there : find (with_id e.id) queue ≡ some e
  pub waits : is_pending e.status ≡ true
  pub few : e.attempts < 5

sent-Step :
    (e : QueuedEvent) (before mid after : Db)
    → Untouched before mid
    → Step e 1 mid after
    → Step e 1 before after
sent-Step e before mid after u s = record {
  order = s.order;
  less = omega (arith, s.less, ap (sum (λ x. x.id) weight) u.queue);
  others = λ f apart there. s.others f apart (rw u.queue there);
}

moved-InOrder : (before mid : Db) → Untouched before mid → InOrder before → InOrder mid
moved-InOrder before mid u v = record {
  unique = rw u.queue v.unique;
  used = used_later before.log.fresh mid.log.fresh mid.queue u.grown (rw u.queue v.used);
  waiting = rw u.queue v.waiting;
}

deliver_event-Step :
    (o : Outside) (now : ℕ) (e : QueuedEvent) (db : Db)
    → InOrder db
    → Claimed db.queue e
    → Returns (λ r. Step e r.0 db r.1) (deliver_event o now e db)
unfolding deliver_event
deliver_event-Step o now e db v c =
    elim (Option-cases (find (λ s. s.correlation_id == e.correlation_id) db.log.system_events)) [
      | inl missing ↦
          rw (missing, deliver_event)
            (put-Step _ e 0 db v c.there refl (λ impossible. cc) (omega arith))
      | inr (event, found) ↦
          rw (found, deliver_event)
            (>>=-Returns (λ r. Step e r.0 db r.1) (send_each o now event (o.resolve e event) db) _
              λ q tried.
                let u =
                  Returns-ok (λ x. Untouched db x.1) (send_each o now event (o.resolve e event) db)
                    q (send_each-Untouched o now event (o.resolve e event) db) tried in
                sent-Step e db q.1 _ u (
                  conclude_event-Step now e event q.0 q.1 (moved-InOrder db q.1 u v)
                    (rw u.queue c.there) c.waits c.few))
    ]

-- What a number of deliveries leaves.
pub record Drained (before : Db) (r : ℕ × Db) : Type 0 where
  pub order : InOrder r.1
  pub less : r.0 + total r.1 ≤ total before

kept :
    (e : QueuedEvent) (n : ℕ) (es : List QueuedEvent) (before after : Db)
    → Step e n before after
    → All (λ f. f.id ≢ e.id) es
    → All (Claimed before.queue) es
    → All (Claimed after.queue) es
kept e n [] before after s apart all = tt
kept e n (f ∷ fs) before after s apart all = (
  record { there = s.others f apart.0 all.0.there; waits = all.0.waits; few = all.0.few },
  kept e n fs before after s apart.1 all.1,
)

pub deliver_each-Drained :
    (o : Outside) (now : ℕ) (es : List QueuedEvent) (db : Db)
    → InOrder db
    → UniqueIds (λ e. e.id) es
    → All (Claimed db.queue) es
    → Returns (Drained db) (deliver_each o now es db)
unfolding deliver_each
deliver_each-Drained o now [] db v u all = record { order = v; less = omega arith }
deliver_each-Drained o now (e ∷ es) db v u all =
    >>=-Returns (Drained db) (deliver_event o now e db) _ λ r first.
      let s =
        Returns-ok (λ x. Step e x.0 db x.1) (deliver_event o now e db) r
          (deliver_event-Step o now e db v all.0) first in
      >>=-Returns (Drained db) (deliver_each o now es r.1) _ λ q rest.
        let d =
          Returns-ok (Drained r.1) (deliver_each o now es r.1) q
            (deliver_each-Drained o now es r.1 s.order u.1 (kept e r.0 es db r.1 s u.0 all.1))
            rest in
        record { order = d.order; less = omega (arith, s.less, d.less) }
