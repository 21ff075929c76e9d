-- ===== src/Lease/Store.antt =====
-- The transactions of `LeaseStore`. Each is atomic: it commits what it returns, or, on an error,
-- nothing. `duration` is `self.duration`; what a transaction cannot know, whether the advisory
-- lock and the row lock were free, is an argument.
use ai_system_trading.Prelude.{
  ℕ, ◌+◌, Bool, true, false, not, ◌&&◌, ◌||◌, Option, none, some, ◌∷◌, if◌then◌else◌, Result, ok,
  err, ◌>>=◌, ◌==◌, nat_equality, option_equality, is_some, ltb,
}
use ai_system_trading.Events.{words, EventLog}
use ai_system_trading.Lease.Types.{
  FeedKey, WorkKind, kind_beq, WorkRef, LeaseClaim, MarketDataLease, JobStatus, WorkerBackfill,
  WorkRow, job, subscription, fields, Db, Notices, RuntimeError, lease_of, put_lease,
}
use ai_system_trading.Lease.Recover.{
  target_of, save_target, is_active, state_of, audited, cleared, kind_text, recover,
}

-- Whether `pg_try_advisory_xact_lock` and `FOR UPDATE SKIP LOCKED` got their locks.
pub record Locks : Type 0 where
  pub advisory : Bool
  pub row : Bool

abbrev pub blank : FeedKey → MarketDataLease
blank f = record {
  feed = f;
  owner_id = none;
  lease_token = none;
  lease_until = none;
  heartbeat_at = none;
  work_kind = none;
  work_id = none;
}

-- The feed's row, created blank if there is none.
unfoldable pub ensure_lease : FeedKey → Db → Db
ensure_lease f db = elim (lease_of f db.leases) [
  | none ↦ record db { leases = put_lease (blank f) db.leases }
  | some _ ↦ db
]

abbrev pub until_after : ℕ → Option ℕ → Bool
until_after now none = true
until_after now (some u) = ltb now u

-- A token is set, and it has not run out: the claim returns `None`.
abbrev pub is_held : ℕ → MarketDataLease → Bool
is_held now l = is_some l.lease_token && until_after now l.lease_until

abbrev is_queued : JobStatus → Bool
is_queued JobStatus.queued = true
is_queued _ = false

abbrev begun : ℕ → WorkerBackfill → WorkerBackfill
begun now b = record b {
  status = JobStatus.running;
  attempts = b.attempts + 1;
  started_at = elim b.started_at [ none ↦ some now | some t ↦ some t ];
  finished_at = none;
}

-- A queued backfill starts.
abbrev pub started : ℕ → WorkRow → WorkRow
started now (job b) = job (if is_queued b.status then begun now b else b)
started now (subscription s) = subscription s

abbrev pub taken : ℕ → ℕ → WorkRef → ℕ → ℕ → MarketDataLease → MarketDataLease
taken duration now w owner token l = record l {
  owner_id = some owner;
  lease_token = some token;
  heartbeat_at = some now;
  lease_until = some (now + duration);
  work_kind = some w.kind;
  work_id = some w.id;
}

module _ (n : Notices) (duration : ℕ) where
  -- The last part of `claim`, on an active target whose time has come.
  unfoldable pub take : WorkRef → ℕ → ℕ → MarketDataLease → WorkRow → Db → LeaseClaim × Db
  take w owner now l target db =
      let token = db.log.fresh in
      let log : EventLog = record db.log { fresh = token + 1 } in
      let target' = started now target in
      let db' : Db = record db {
        leases = put_lease (taken duration now w owner token l) db.leases;
        log = log;
      } in
      (
        record {
          work = w;
          owner_id = owner;
          token = token;
          next_fetch_at = (fields target').next_fetch_at;
        },
        audited w "market_data.work_claimed" (("kind", words (kind_text w.kind)) ∷ state_of target')
            (state_of target) (save_target target' db'),
      )

  unfoldable pub claim_target :
      WorkRef → ℕ → ℕ → MarketDataLease → Option WorkRow → Db → Option LeaseClaim × Db
  unfolding take
  claim_target w owner now l none db = (none, db)
  claim_target w owner now l (some target) db =
      if not (is_active target) || ltb now (fields target).next_run_at
      then (none, db)
      else (let (c, db') = take w owner now l target db in (some c, db'))

  -- After an expired lease was recovered, its row is clear.
  unfoldable pub claim_free : WorkRef → ℕ → ℕ → MarketDataLease → Db → Option LeaseClaim × Db
  unfolding claim_target target_of
  claim_free w owner now l db = claim_target w owner now l (target_of w db) db

  unfoldable pub claim_row :
      WorkRef → ℕ → ℕ → MarketDataLease → Db → Result RuntimeError (Option LeaseClaim × Db)
  unfolding claim_free recover
  claim_row w owner now l db =
      if is_held now l
      then ok (none, db)
      else if is_some l.lease_token
      then (recover n now l db >>= λ db'. ok (claim_free w owner now (cleared l) db'))
      else ok (claim_free w owner now l db)

  unfoldable pub claim_locked :
      WorkRef → ℕ → ℕ → Option MarketDataLease → Db → Result RuntimeError (Option LeaseClaim × Db)
  unfolding claim_row
  claim_locked w owner now none db = ok (none, db)
  claim_locked w owner now (some l) db = claim_row w owner now l db

  unfoldable pub claim : WorkRef → ℕ → ℕ → Locks → Db → Result RuntimeError (Option LeaseClaim × Db)
  unfolding claim_locked ensure_lease
  claim w owner now locks db =
      if locks.advisory
      then (let db' = ensure_lease w.feed db in
          if locks.row
          then claim_locked w owner now (lease_of w.feed db'.leases) db'
          else ok (none, db'))
      else ok (none, db)

-- `_owned`: every field of the claim, and the lease still runs.
abbrev pub kind_is : Option WorkKind → WorkKind → Bool
kind_is none k = false
kind_is (some j) k = kind_beq j k

abbrev pub id_is : Option ℕ → ℕ → Bool
id_is none i = false
id_is (some j) i = j == i

abbrev pub until_later : ℕ → Option ℕ → Bool
until_later now none = false
until_later now (some u) = ltb now u

abbrev pub is_owned : LeaseClaim → ℕ → Option MarketDataLease → Bool
is_owned c now none = false
is_owned c now (some l) =
    id_is l.lease_token c.token
    && (id_is l.owner_id c.owner_id
        && (kind_is l.work_kind c.work.kind
            && (id_is l.work_id c.work.id && until_later now l.lease_until)))

abbrev pub with_lease : (MarketDataLease → MarketDataLease) → Option MarketDataLease → Db → Db
with_lease f none db = db
with_lease f (some l) db = record db { leases = put_lease (f l) db.leases }

abbrev pub renewed : ℕ → ℕ → MarketDataLease → MarketDataLease
renewed duration now l = record l { heartbeat_at = some now; lease_until = some (now + duration) }

unfoldable pub heartbeat : ℕ → LeaseClaim → ℕ → Db → Bool × Db
heartbeat duration c now db =
    let l = lease_of c.work.feed db.leases in
    if is_owned c now l then (true, with_lease (renewed duration now) l db) else (false, db)

unfoldable pub release : LeaseClaim → ℕ → Db → Bool × Db
release c now db =
    let l = lease_of c.work.feed db.leases in
    if is_owned c now l then (true, with_lease cleared l db) else (false, db)

pub data LeaseLost : Type 0 where
  lease_lost : LeaseLost

abbrev pub may_write : LeaseClaim → Option WorkRow → Bool
may_write c none = false
may_write c (some t) = is_active t && (fields t).next_fetch_at == c.next_fetch_at

abbrev pub write : (WorkRow → WorkRow) → Option WorkRow → Db → Db
write body none db = db
write body (some t) db = save_target (body t) db

-- `body` is what the caller does to the target while it holds the transaction.
unfoldable pub guarded_write :
    (WorkRow → WorkRow) → Bool → LeaseClaim → ℕ → Db → Result LeaseLost Db
unfolding target_of
guarded_write body releases c now db =
    let l = lease_of c.work.feed db.leases in
    let t = target_of c.work db in
    if is_owned c now l && may_write c t
    then ok (let db' = write body t db in if releases then with_lease cleared l db' else db')
    else err lease_lost
