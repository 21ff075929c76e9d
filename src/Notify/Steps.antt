-- ===== src/Notify/Steps.antt =====
-- One event of a batch: what it leaves of the outbox.
use Prim.Native.String.{String}
use ai_system_trading.Prelude.{
  ℕ, ◌+◌, ◌-◌, ◌≤◌, ◌<◌, ◌≡◌, ◌≢◌, refl, sym, ◌∙◌, Bool, true, false, none, some, List, [], ◌∷◌,
  ◌++◌, inl, inr, arith, Bool-cases, if◌then◌else◌, leb, ◌==◌, nat_equality, string_equality,
  beq_refl, beq_false,
}
use mathlib.Core.Path.{ap, subst}
use ai_system_trading.Prelude.Rows.{find, All, All-append, All-find}
use ai_system_trading.Prelude.Table.{
  save, UniqueIds-save, UniqueIds-append, All-save, sum-save, sum-append, find-save_other,
}
use ai_system_trading.Events.{SystemEvent, NewEvent, publish_system_event}
use ai_system_trading.Notify.Types.{EventStatus, pending, is_pending, QueuedEvent, Db}
use ai_system_trading.Notify.Deliver.{
  give_up_event_type, failed_channels, enqueue, announce_give_up, give_up_event, conclude_event,
}
use ai_system_trading.Notify.Weight.{is_give_up, weight, Waiting, InOrder, total, with_id}

-- The change of one row that is there.
pub record Step (e : QueuedEvent) (count : ℕ) (before after : Db) : Type 0 where
  pub order : InOrder after
  pub less : count + total after ≤ total before
  pub others :
      (f : QueuedEvent)
      → f.id ≢ e.id
      → find (with_id f.id) before.queue ≡ some f
      → find (with_id f.id) after.queue ≡ some f

abbrev put : QueuedEvent → Db → Db
put e db = record db { queue = save (λ x. x.id) e db.queue }

put-total :
    (a e : QueuedEvent) (db : Db)
    → InOrder db
    → find (with_id e.id) db.queue ≡ some e
    → a.id ≡ e.id
    → total (put a db) + weight e ≡ total db + weight a
put-total a e db v found same =
    sum-save (λ x. x.id) weight (with_id e.id) a e db.queue v.unique found same

put-InOrder :
    (a e : QueuedEvent) (db : Db)
    → InOrder db
    → find (with_id e.id) db.queue ≡ some e
    → a.id ≡ e.id
    → Waiting a
    → InOrder (put a db)
put-InOrder a e db v found same waits =
    let below : e.id < db.log.fresh =
      All-find (λ x. x.id < db.log.fresh) (with_id e.id) db.queue e v.used found in
    record {
      unique = UniqueIds-save (λ x. x.id) a db.queue v.unique;
      used =
          All-save (λ x. x.id) (λ x. x.id < db.log.fresh) a db.queue (omega (arith, below, same))
            v.used;
      waiting = All-save (λ x. x.id) Waiting a db.queue waits v.waiting;
    }

put_others :
    (a e f : QueuedEvent) (db : Db)
    → InOrder db
    → find (with_id e.id) db.queue ≡ some e
    → a.id ≡ e.id
    → f.id ≢ e.id
    → find (with_id f.id) db.queue ≡ some f
    → find (with_id f.id) (put a db).queue ≡ some f
put_others a e f db v found same apart there =
    find-save_other (λ x. x.id) (with_id e.id) (with_id f.id) a e db.queue v.unique found same
      (beq_false e.id f.id (λ h. apart (sym h))) (beq_false a.id f.id (λ h. apart (sym h ∙ same)))
    ∙ there

pub put-Step :
    (a e : QueuedEvent) (count : ℕ) (db : Db)
    → InOrder db
    → find (with_id e.id) db.queue ≡ some e
    → a.id ≡ e.id
    → Waiting a
    → count + weight a ≤ weight e
    → Step e count db (put a db)
put-Step a e count db v found same waits less = record {
  order = put-InOrder a e db v found same waits;
  less = omega (arith, put-total a e db v found same, less);
  others = λ f apart there. put_others a e f db v found same apart there;
}

find_kept :
    (f : QueuedEvent) (p : QueuedEvent → Bool) (xs ys : List QueuedEvent)
    → find p xs ≡ some f
    → find p (xs ++ ys) ≡ some f
find_kept f p [] ys e = cc
find_kept f p (x ∷ xs) ys e = ground (arith, find_kept f p xs ys)

pub used_later :
    (n m : ℕ) (es : List QueuedEvent) → n ≤ m → All (λ e. e.id < n) es → All (λ e. e.id < m) es
used_later n m [] le all = tt
used_later n m (e ∷ es) le all = (omega (arith, all.0), used_later n m es le all.1)

-- The row that `enqueue` appends.
abbrev queued_row : NewEvent → ℕ → Db → QueuedEvent
queued_row n now db = record {
  id = (publish_system_event n db.log).1.fresh;
  event_type = n.event_type;
  correlation_id = (publish_system_event n db.log).0.correlation_id;
  status = pending;
  attempts = 0;
  available_at = now;
  published_at = none;
}

-- A new event: the invariant stays, the old rows stay, and its weight is added.
enqueue_adds :
    (n : NewEvent) (now w : ℕ) (db : Db)
    → InOrder db
    → 5 - 0 + (if n.event_type == give_up_event_type then 0 else 6) ≤ w
    → InOrder (enqueue n now db)
      × (total (enqueue n now db) ≤ total db + w)
      × ((p : QueuedEvent → Bool) (f : QueuedEvent)
          → find p db.queue ≡ some f
          → find p (enqueue n now db).queue ≡ some f)
unfolding enqueue publish_system_event
enqueue_adds n now w db v heavy = (
  record {
    unique = UniqueIds-append (λ e. e.id) _ db.log.fresh db.queue v.used (omega arith) v.unique;
    used =
        All-append (λ e. e.id < db.log.fresh + 2 + 1) db.queue (_ ∷ [])
          (used_later db.log.fresh (db.log.fresh + 2 + 1) db.queue (omega arith) v.used)
          (omega arith, tt);
    waiting = All-append Waiting db.queue (_ ∷ []) v.waiting ((λ _. omega arith), tt);
  },
  omega (arith, heavy, sum-append (λ e. e.id) weight db.queue (queued_row n now db ∷ [])),
  λ p f found. find_kept f p db.queue _ found,
)

give_up_event-weight :
    (e : QueuedEvent) (event : SystemEvent) (channels : List String)
    → 5 - 0 + (if (give_up_event e event channels).event_type == give_up_event_type then 0 else 6)
      ≤ 5
unfolding give_up_event
give_up_event-weight e event channels =
    subst (λ b. 5 - 0 + (if b then 0 else 6) ≤ 5) (sym (beq_refl give_up_event_type)) (omega arith)

-- Giving up on an event that is not itself such a notice adds one.
announced :
    (now : ℕ) (e a : QueuedEvent) (event : SystemEvent) (db : Db)
    → is_give_up a ≡ is_give_up e
    → (1 + (if is_give_up e then 0 else 6) ≤ weight e)
    → Step e 0 db (put a db)
    → weight a ≡ 0
    → total (put a db) + weight e ≤ total db
    → Step e 1 db (announce_give_up now a event (put a db))
unfolding announce_give_up
announced now e a event db kind heavy s done spent = elim (Bool-cases (is_give_up a)) [
  | inl notice ↦
      rw notice (record { order = s.order; less = ground (arith, heavy, spent); others = s.others })
  | inr other ↦
      let channels = failed_channels event.id (put a db).notifications in
      let n = give_up_event a event channels in
      let (order, more, stays) =
        enqueue_adds n now 5 (put a db) s.order (give_up_event-weight a event channels) in
      rw other (record {
        order = order;
        less =
            omega
              (arith, more, spent, heavy, ap {B = ℕ} (λ b. if b then 0 else 6) (sym kind ∙ other));
        others = λ f apart there. stays (with_id f.id) f (s.others f apart there);
      })
]

pending_weight :
    (e : QueuedEvent)
    → is_pending e.status ≡ true
    → weight e ≡ 5 - e.attempts + (if is_give_up e then 0 else 6)
pending_weight e waits = rw waits

-- The end of an event uses up some of the weight.
pub conclude_event-Step :
    (now : ℕ) (e : QueuedEvent) (event : SystemEvent) (any_failed : Bool) (db : Db)
    → InOrder db
    → find (with_id e.id) db.queue ≡ some e
    → is_pending e.status ≡ true
    → e.attempts < 5
    → Step e 1 db (conclude_event now e event any_failed db)
unfolding conclude_event
conclude_event-Step now e event false db v found waits few =
    put-Step _ e 1 db v found refl (λ impossible. cc) (omega (arith, pending_weight e waits, few))
conclude_event-Step now e event true db v found waits few =
    elim (Bool-cases (leb 5 (e.attempts + 1))) [
      | inl last ↦
          let given_up : QueuedEvent = record e {
            attempts = e.attempts + 1;
            status = EventStatus.failed;
          } in
          rw last (
            announced now e given_up event db refl (omega (arith, pending_weight e waits, few))
              (put-Step given_up e 0 db v found refl (λ impossible. cc) (omega arith)) refl
              (omega (arith, put-total given_up e db v found refl)))
      | inr again ↦ rw again (
          put-Step _ e 1 db v found refl (λ _. ground (arith, again))
            (retried (ground (arith, again))))
    ]
  where
    retried :
        e.attempts + 1 < 5
        → 1
            + (if is_pending e.status
                then 5 - (e.attempts + 1) + (if is_give_up e then 0 else 6)
                else 0)
          ≤ weight e
    retried more = rw waits (omega (arith, more))
