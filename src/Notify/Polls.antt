-- ===== src/Notify/Polls.antt =====
-- Polls one after the other, and that they come to an end.
use ai_system_trading.Prelude.{
  ℕ, zero, suc, ◌+◌, ◌*◌, ◌≤◌, ◌≡◌, ◌≢◌, sym, Bool, true, some, List, [], ◌∷◌, inl, inr, arith,
  Bool-cases, leb, Result, ok, err, Returns, nat_equality, beq_refl, beq_false,
}
use ai_system_trading.Prelude.Rows.{find, select, length, All}
use ai_system_trading.Prelude.Table.{UniqueIds, sum}
use ai_system_trading.Notify.Types.{is_pending, QueuedEvent, Db, Outside, DeliveryError}
use ai_system_trading.Notify.Deliver.{
  batch_size, insert_by_time, by_time, take, is_due, claim_pending_outbox_events,
  deliver_pending_notifications,
}
use ai_system_trading.Notify.Weight.{weight, Waiting, InOrder, with_id}
use ai_system_trading.Notify.Batch.{Claimed, Drained, deliver_each-Drained}

All-select :
    (P : QueuedEvent → Type 0) (p : QueuedEvent → Bool) (es : List QueuedEvent)
    → All P es
    → All P (select p es)
All-select P p [] all = tt
All-select P p (e ∷ es) all = elim (Bool-cases (p e)) [
  | inl hit ↦ rw hit (all.0, All-select P p es all.1)
  | inr miss ↦ rw miss (All-select P p es all.1)
]

All-insert :
    (P : QueuedEvent → Type 0) (e : QueuedEvent) (es : List QueuedEvent)
    → P e
    → All P es
    → All P (insert_by_time e es)
All-insert P e [] h all = (h, tt)
All-insert P e (f ∷ fs) h all = elim (Bool-cases (leb e.available_at f.available_at)) [
  | inl here ↦ rw here (h, (all.0, all.1))
  | inr later ↦ rw later (all.0, All-insert P e fs h all.1)
]

All-by_time : (P : QueuedEvent → Type 0) (es : List QueuedEvent) → All P es → All P (by_time es)
All-by_time P [] all = tt
All-by_time P (e ∷ es) all = All-insert P e (by_time es) all.0 (All-by_time P es all.1)

All-take : (P : QueuedEvent → Type 0) (n : ℕ) (es : List QueuedEvent) → All P es → All P (take n es)
All-take P zero es all = tt
All-take P (suc n) [] all = tt
All-take P (suc n) (e ∷ es) all = (all.0, All-take P n es all.1)

select-UniqueIds :
    (p : QueuedEvent → Bool) (es : List QueuedEvent)
    → UniqueIds (λ e. e.id) es
    → UniqueIds (λ e. e.id) (select p es)
select-UniqueIds p [] u = tt
select-UniqueIds p (e ∷ es) u = elim (Bool-cases (p e)) [
  | inl hit ↦ rw hit (All-select (λ f. f.id ≢ e.id) p es u.0, select-UniqueIds p es u.1)
  | inr miss ↦ rw miss (select-UniqueIds p es u.1)
]

insert-UniqueIds :
    (e : QueuedEvent) (es : List QueuedEvent)
    → All (λ f. f.id ≢ e.id) es
    → UniqueIds (λ x. x.id) es
    → UniqueIds (λ x. x.id) (insert_by_time e es)
insert-UniqueIds e [] apart u = (tt, tt)
insert-UniqueIds e (f ∷ fs) apart u = elim (Bool-cases (leb e.available_at f.available_at)) [
  | inl here ↦ rw here ((apart.0, apart.1), (u.0, u.1))
  | inr later ↦ rw later (
    All-insert (λ x. x.id ≢ f.id) e fs (λ h. apart.0 (sym h)) u.0,
    insert-UniqueIds e fs apart.1 u.1,
  )
]

by_time-UniqueIds :
    (es : List QueuedEvent) → UniqueIds (λ e. e.id) es → UniqueIds (λ e. e.id) (by_time es)
by_time-UniqueIds [] u = tt
by_time-UniqueIds (e ∷ es) u =
    insert-UniqueIds e (by_time es) (All-by_time (λ f. f.id ≢ e.id) es u.0)
      (by_time-UniqueIds es u.1)

take-UniqueIds :
    (n : ℕ) (es : List QueuedEvent) → UniqueIds (λ e. e.id) es → UniqueIds (λ e. e.id) (take n es)
take-UniqueIds zero es u = tt
take-UniqueIds (suc n) [] u = tt
take-UniqueIds (suc n) (e ∷ es) u = (All-take (λ f. f.id ≢ e.id) n es u.0, take-UniqueIds n es u.1)

-- Every row of a table with distinct identifiers is found by its own.
each_there :
    (es : List QueuedEvent)
    → UniqueIds (λ e. e.id) es
    → All (λ e. find (with_id e.id) es ≡ some e) es
each_there [] u = tt
each_there (e ∷ es) u = (rw (beq_refl e.id), others es (each_there es u.1) u.0)
  where
    others :
        (fs : List QueuedEvent)
        → All (λ f. find (with_id f.id) es ≡ some f) fs
        → All (λ f. f.id ≢ e.id) fs
        → All (λ f. find (with_id f.id) (e ∷ es) ≡ some f) fs
    others [] all apart = tt
    others (f ∷ fs) all apart =
        (rw (beq_false e.id f.id (λ h. apart.0 (sym h))) all.0, others fs all.1 apart.1)

select_claimed :
    (o : Outside) (now : ℕ) (queue es : List QueuedEvent)
    → All (λ e. find (with_id e.id) queue ≡ some e) es
    → All Waiting es
    → All (Claimed queue) (select (is_due o now) es)
select_claimed o now queue [] all waiting = tt
select_claimed o now queue (e ∷ es) all waiting = elim (Bool-cases (is_due o now e)) [
  | inl due ↦
      let waits : is_pending e.status ≡ true = ground arith in
      rw due (
        record { there = all.0; waits = waits; few = waiting.0 waits },
        select_claimed o now queue es all.1 waiting.1,
      )
  | inr rest ↦ rw rest (select_claimed o now queue es all.1 waiting.1)
]

-- The claimed batch: distinct rows of the outbox, pending and not out of attempts.
claim-Claimed :
    (o : Outside) (now : ℕ) (db : Db)
    → InOrder db
    → All (Claimed db.queue) (claim_pending_outbox_events o now db)
      × UniqueIds (λ e. e.id) (claim_pending_outbox_events o now db)
unfolding claim_pending_outbox_events
claim-Claimed o now db v = (
  All-take (Claimed db.queue) batch_size (by_time (select (is_due o now) db.queue)) (
      All-by_time (Claimed db.queue) (select (is_due o now) db.queue)
        (select_claimed o now db.queue db.queue (each_there db.queue v.unique) v.waiting)),
  take-UniqueIds batch_size (by_time (select (is_due o now) db.queue)) (
      by_time-UniqueIds (select (is_due o now) db.queue)
        (select-UniqueIds (is_due o now) db.queue v.unique)),
)

poll-Drained :
    (o : Outside) (now : ℕ) (db : Db)
    → InOrder db
    → Returns (Drained db) (deliver_pending_notifications o now db)
unfolding deliver_pending_notifications
poll-Drained o now db v =
    let (all, unique) = claim-Claimed o now db v in
    deliver_each-Drained o now (claim_pending_outbox_events o now db) db v unique all

-- A poll of the worker at a time, with the outside as it is then.
pub record Poll : Type 0 where
  pub outside : Outside
  pub now : ℕ

-- What a poll has processed, and the tables after it; one that fails is rolled back.
abbrev pub after_poll : Db → Result DeliveryError (ℕ × Db) → ℕ × Db
after_poll db (ok r) = r
after_poll db (err e) = (0, db)

unfoldable pub run : List Poll → Db → ℕ × Db
run [] db = (0, db)
run (p ∷ ps) db =
    let (count, db') = after_poll db (deliver_pending_notifications p.outside p.now db) in
    let (rest, end) = run ps db' in (count + rest, end)

after_poll-Drained :
    (db : Db) (r : Result DeliveryError (ℕ × Db))
    → InOrder db
    → Returns (Drained db) r
    → Drained db (after_poll db r)
after_poll-Drained db (ok r) v d = d
after_poll-Drained db (err e) v d = record { order = v; less = omega arith }

run-Drained : (ps : List Poll) (db : Db) → InOrder db → Drained db (run ps db)
unfolding run
run-Drained [] db v = record { order = v; less = omega arith }
run-Drained (p ∷ ps) db v =
    let r = deliver_pending_notifications p.outside p.now db in
    let first = after_poll-Drained db r v (poll-Drained p.outside p.now db v) in
    let rest = run-Drained ps (after_poll db r).1 first.order in
    record { order = rest.order; less = omega (arith, first.less, rest.less) }

-- However often the worker polls, and whatever the adapters, the recipients and the locks of
-- other workers are at each poll, no pending event is ever out of its five attempts.
pub run-InOrder : (ps : List Poll) (db : Db) → InOrder db → InOrder (run ps db).1
run-InOrder ps db v = (run-Drained ps db v).order

weight_le : (es : List QueuedEvent) → sum (λ e. e.id) weight es ≤ 11 * length es
weight_le [] = omega arith
weight_le (e ∷ es) = omega (arith, light e, weight_le es)
  where
    light : (e : QueuedEvent) → weight e ≤ 11
    light e = ground arith

-- The retries end: from an outbox in order, all polls that commit, however many there are, process
-- events at most eleven times for each row that the outbox had (five tries of the event, five of
-- the notice that it was given up, and one to spare). A poll that
-- raises is rolled back and counts nothing.
pub run-bounded : (ps : List Poll) (db : Db) → InOrder db → (run ps db).0 ≤ 11 * length db.queue
run-bounded ps db v = omega (arith, (run-Drained ps db v).less, weight_le db.queue)
