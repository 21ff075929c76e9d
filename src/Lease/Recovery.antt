-- ===== src/Lease/Recovery.antt =====
-- What a recovery does to the work whose lease ran out.
use Prim.Native.String.{String}
use ai_system_trading.Prelude.{
  ℕ, ◌+◌, ◌*◌, ◌%◌, ◌≤◌, ◌≡◌, refl, ap, ◌∙◌, Bool, true, ◌&&◌, Option, none, some, List, inl, inr,
  ◌==◌, nat_equality, ok, Bool-cases, arith, leb, ltb, if◌then◌else◌, beq_refl, is_none,
}
use mathlib.Core.Option
use ai_system_trading.Prelude.Rows.{find, find_holds}
use ai_system_trading.Prelude.Table.{save, UniqueIds, find-save}
use ai_system_trading.Lease.Types.{
  WorkKind, backfill, polling, WorkRef, WorkRow, job, subscription, WorkerBackfill,
  WorkerSubscription, MarketDataLease, Db, Notices, JobStatus, lease_of, put_lease,
  lease_of-put_lease, feed_equality, fields,
}
use ai_system_trading.Lease.Recover.{
  target_of, target_of_kind, save_target, is_active_job, is_active, cleared, notice, interrupt,
  interrupt_target, recover_work, recover,
}

-- One more failure is counted; the third stops the work for good, and until then it waits, between
-- 30 and 125 seconds.
pub record Interrupted (now : ℕ) (before after : WorkRow) : Type 0 where
  pub counted : (fields after).consecutive_failures ≡ (fields before).consecutive_failures + 1
  pub goes_on : is_active after ≡ ltb ((fields before).consecutive_failures + 1) 3
  pub waits : now + 30000000 ≤ (fields after).next_run_at
  pub not_long : (fields after).next_run_at ≤ now + 125000000

-- No work holds the lease, and nothing of the last claim is left in it.
abbrev pub Free : MarketDataLease → Type 0
Free l =
    (l.owner_id ≡ none)
    × (l.lease_token ≡ none)
    × (l.lease_until ≡ none)
    × (l.heartbeat_at ≡ none)
    × (l.work_kind ≡ none)
    × (l.work_id ≡ none)

-- The table keys, which are the primary keys of the two tables of work.
abbrev pub Keyed : Db → Type 0
Keyed db = UniqueIds (λ b. b.id) db.backfills × UniqueIds (λ s. s.id) db.subscriptions

delay_bounds :
    (failures i now : ℕ)
    → (now + 30000000 ≤ now + ((if failures == 1 then 30 else 120) + i % 6) * 1000000)
      × (now + ((if failures == 1 then 30 else 120) + i % 6) * 1000000 ≤ now + 125000000)
delay_bounds failures i now = elim (Bool-cases (failures == 1)) [
  | inl one ↦ rw one (ground arith, ground arith)
  | inr more ↦ rw more (ground arith, ground arith)
]

job_goes_on :
    (k : ℕ) → is_active_job (if leb 3 k then JobStatus.failed else JobStatus.queued) ≡ ltb k 3
job_goes_on k = elim (Bool-cases (leb 3 k)) [
  | inl third ↦ rw third (ground arith)
  | inr earlier ↦ rw earlier (ground arith)
]

polling_goes_on :
    (k : ℕ) (e : Bool) (r : Option String)
    → (e && is_none r) ≡ true
    → (e && is_none (if leb 3 k then some "worker_interrupted" else r)) ≡ ltb k 3
polling_goes_on k e r active = elim (Bool-cases (leb 3 k)) [
  | inl third ↦ rw third (ground arith)
  | inr earlier ↦ rw earlier (ground arith)
]

interrupt-Interrupted :
    (now : ℕ) (w : WorkRef) (t : WorkRow)
    → is_active t ≡ true
    → Interrupted now t (interrupt now w t)
interrupt-Interrupted now w (job b) active = record {
  counted = refl;
  goes_on = job_goes_on (b.consecutive_failures + 1);
  waits = (delay_bounds (b.consecutive_failures + 1) w.id now).0;
  not_long = (delay_bounds (b.consecutive_failures + 1) w.id now).1;
}
interrupt-Interrupted now w (subscription s) active = record {
  counted = refl;
  goes_on = polling_goes_on (s.consecutive_failures + 1) s.enabled s.blocked_reason active;
  waits = (delay_bounds (s.consecutive_failures + 1) w.id now).0;
  not_long = (delay_bounds (s.consecutive_failures + 1) w.id now).1;
}

target-save_job :
    (w : WorkRef) (b : WorkerBackfill) (bs : List WorkerBackfill)
    → UniqueIds (λ x. x.id) bs
    → find (λ x. x.id == w.id && x.feed == w.feed) bs ≡ some b
    → (c : WorkerBackfill) → c.id ≡ b.id
    → c.feed ≡ b.feed
    → find (λ x. x.id == w.id && x.feed == w.feed) (save (λ x. x.id) c bs) ≡ some c
target-save_job w b bs unique found c same feed =
    let fits = find_holds (λ x. x.id == w.id && x.feed == w.feed) bs b found in
    find-save (λ x. x.id) (λ x. x.id == w.id && x.feed == w.feed) c b bs unique found same
      (rw (same, feed) fits)

target-save_subscription :
    (w : WorkRef) (b : WorkerSubscription) (bs : List WorkerSubscription)
    → UniqueIds (λ x. x.id) bs
    → find (λ x. x.id == w.id && x.feed == w.feed) bs ≡ some b
    → (c : WorkerSubscription) → c.id ≡ b.id
    → c.feed ≡ b.feed
    → find (λ x. x.id == w.id && x.feed == w.feed) (save (λ x. x.id) c bs) ≡ some c
target-save_subscription w b bs unique found c same feed =
    let fits = find_holds (λ x. x.id == w.id && x.feed == w.feed) bs b found in
    find-save (λ x. x.id) (λ x. x.id == w.id && x.feed == w.feed) c b bs unique found same
      (rw (same, feed) fits)

map_job :
    (o : Option WorkerBackfill) (t : WorkRow)
    → Option.map job o ≡ some t
    → (b : WorkerBackfill) × (o ≡ some b) × (job b ≡ t)
map_job none t e = cc
map_job (some b) t e = (b, refl, cc)

map_subscription :
    (o : Option WorkerSubscription) (t : WorkRow)
    → Option.map subscription o ≡ some t
    → (s : WorkerSubscription) × (o ≡ some s) × (subscription s ≡ t)
map_subscription none t e = cc
map_subscription (some s) t e = (s, refl, cc)

-- The work's row after it was saved is the one saved.
target_of-save :
    (k : WorkKind) (now : ℕ) (w : WorkRef) (t : WorkRow) (db : Db)
    → Keyed db
    → target_of_kind k w db ≡ some t
    → target_of_kind k w (save_target (interrupt now w t) db) ≡ some (interrupt now w t)
unfolding target_of_kind
target_of-save backfill now w t db keyed found =
    let (b, e, same) = map_job _ t found in
    rw (← same) (ap (Option.map job) (target-save_job w b db.backfills keyed.0 e _ refl refl))
target_of-save polling now w t db keyed found =
    let (s, e, same) = map_subscription _ t found in
    rw (← same) (
      ap (Option.map subscription)
        (target-save_subscription w s db.subscriptions keyed.1 e _ refl refl))

target_of-same :
    (k : WorkKind) (w : WorkRef) (db db' : Db)
    → db'.backfills ≡ db.backfills
    → db'.subscriptions ≡ db.subscriptions
    → target_of_kind k w db' ≡ target_of_kind k w db
unfolding target_of_kind
target_of-same backfill w db db' b s = rw b refl
target_of-same polling w db db' b s = rw s refl

notice-target :
    (n : Notices) (k : WorkKind) (w : WorkRef) (t : WorkRow) (db : Db)
    → target_of_kind k w (notice n t db) ≡ target_of_kind k w db
unfolding notice
notice-target n k w t db = elim (Bool-cases (leb 3 (fields t).consecutive_failures)) [
  | inl stop ↦ rw stop (target_of-same k w db _ refl refl)
  | inr go ↦ rw go refl
]

interrupt_target-target :
    (n : Notices) (k : WorkKind) (now : ℕ) (w : WorkRef) (t : WorkRow) (db : Db)
    → Keyed db
    → target_of_kind k w db ≡ some t
    → is_active t ≡ true
    → target_of_kind k w (interrupt_target n now w (some t) db) ≡ some (interrupt now w t)
unfolding interrupt_target
interrupt_target-target n k now w t db keyed found active =
    let saved = save_target (interrupt now w t) db in
    let noticed = notice n (interrupt now w t) saved in
    rw (active) (
      target_of-same k w noticed _ refl refl
      ∙ notice-target n k w (interrupt now w t) saved
      ∙ target_of-save k now w t db keyed found)

-- Recovering a lease whose work is still active leaves the feed's lease with no owner, token,
-- end, heartbeat or work, and interrupts the work: one more
-- failure is counted, the work goes on if these are fewer than three and is stopped otherwise, and
-- it is due again 30 to 125 seconds from now.
pub recover_interrupts :
    (n : Notices) (now : ℕ) (l : MarketDataLease) (k : WorkKind) (i : ℕ) (t : WorkRow) (db : Db)
    → l.work_kind ≡ some k
    → l.work_id ≡ some i
    → Keyed db
    → target_of (record { feed = l.feed; kind = k; id = i }) db ≡ some t
    → is_active t ≡ true
    → (db' : Db) × (t' : WorkRow) × (recover n now l db ≡ ok db')
      × (target_of (record { feed = l.feed; kind = k; id = i }) db' ≡ some t')
      × Interrupted now t t'
      × ((l' : MarketDataLease) × (lease_of l.feed db'.leases ≡ some l')
          × (l'.feed ≡ l.feed)
          × Free l')
unfolding recover recover_work interrupt_target target_of
recover_interrupts n now l k i t db kind id keyed found active =
    let w : WorkRef = record { feed = l.feed; kind = k; id = i } in
    let t' = interrupt now w t in
    let mid = interrupt_target n now w (some t) db in
    let db' : Db = record mid { leases = put_lease (cleared l) mid.leases } in
    (
      db',
      t',
      rw (kind, id, recover_work) (rw found refl),
      target_of-same k w mid db' refl refl
          ∙ interrupt_target-target n k now w t db keyed found active,
      interrupt-Interrupted now w t active,
      (
        cleared l,
        rw (lease_of-put_lease l.feed (cleared l) mid.leases, beq_refl l.feed) refl,
        refl,
        (refl, refl, refl, refl, refl, refl),
      ),
    )
