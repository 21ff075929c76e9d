-- ===== src/Lease/Recover.antt =====
-- The queries on targets, `_active`, `_state`, `_audit`, `_clear` and `_recover` of `LeaseStore`.
use Prim.Native.String.{String}
use ai_system_trading.Prelude.{
  ℕ, ◌+◌, ◌*◌, ◌%◌, Bool, true, false, ◌&&◌, Option, none, some, [], ◌∷◌, ◌++◌, if◌then◌else◌,
  Result, ok, err, ◌==◌, nat_equality, is_none, leb,
}
use mathlib.Core.Option
use ai_system_trading.Prelude.Rows.{find}
use ai_system_trading.Prelude.Table.{save}
use ai_system_trading.Events.{words, flag, number, null, Value, Payload, EventLog}
use ai_system_trading.Lease.Types.{
  WorkKind, backfill, polling, WorkRef, MarketDataLease, JobStatus, WorkFields, WorkRow, job,
  subscription, fields, AuditRow, Db, Notices, RuntimeError, invalid_stored_lease_target,
  feed_equality, put_lease,
}
use ai_system_trading.Lease.Notice.{announce_stopped}

-- `_target`: the row of the work's kind with its id and its feed
unfoldable pub target_of_kind : WorkKind → WorkRef → Db → Option WorkRow
target_of_kind backfill w db =
    Option.map job (find (λ b. b.id == w.id && b.feed == w.feed) db.backfills)
target_of_kind polling w db =
    Option.map subscription (find (λ s. s.id == w.id && s.feed == w.feed) db.subscriptions)

unfoldable pub target_of : WorkRef → Db → Option WorkRow
unfolding target_of_kind
target_of w db = target_of_kind w.kind w db

-- The object's row after a flush.
abbrev pub save_target : WorkRow → Db → Db
save_target (job b) db = record db { backfills = save (λ x. x.id) b db.backfills }
save_target (subscription s) db = record db { subscriptions = save (λ x. x.id) s db.subscriptions }

abbrev pub is_active_job : JobStatus → Bool
is_active_job JobStatus.queued = true
is_active_job JobStatus.running = true
is_active_job JobStatus.validating = true
is_active_job _ = false

-- `_active`
abbrev pub is_active : WorkRow → Bool
is_active (job b) = is_active_job b.status
is_active (subscription s) = s.enabled && is_none s.blocked_reason

abbrev status_text : JobStatus → String
status_text JobStatus.queued = "queued"
status_text JobStatus.running = "running"
status_text JobStatus.validating = "validating"
status_text JobStatus.succeeded = "succeeded"
status_text JobStatus.failed = "failed"
status_text JobStatus.cancelled = "cancelled"

abbrev optional_words : Option String → Value
optional_words none = null
optional_words (some w) = words w

-- `_state`
abbrev pub state_of : WorkRow → Payload
state_of (job b) =
    ("status", words (status_text b.status))
    ∷ ("consecutive_failures", number b.consecutive_failures)
    ∷ []
state_of (subscription s) =
    ("enabled", flag s.enabled)
    ∷ ("blocked_reason", optional_words s.blocked_reason)
    ∷ ("consecutive_failures", number s.consecutive_failures)
    ∷ []

-- `_audit`, with `uuid4()` for the correlation id
abbrev pub audited : WorkRef → String → Payload → Payload → Db → Db
audited w action after before db =
    let row : AuditRow = record {
      work = w;
      action = action;
      before_data = before;
      after_data = after;
      correlation_id = db.log.fresh;
    } in
    let log : EventLog = record db.log { fresh = db.log.fresh + 1 } in
    record db { audit = db.audit ++ row ∷ []; log = log }

-- `_clear`
abbrev pub cleared : MarketDataLease → MarketDataLease
cleared l = record l {
  owner_id = none;
  lease_token = none;
  lease_until = none;
  heartbeat_at = none;
  work_kind = none;
  work_id = none;
}

abbrev second : ℕ
second = 1000000

-- The fields of an active target after one more interruption: 30 s after the first failure, 120 s
-- later, and up to 5 s by the work's id.
abbrev pub interrupted : ℕ → WorkRef → WorkFields → WorkFields
interrupted now w f =
    let failures = f.consecutive_failures + 1 in
    record f {
      consecutive_failures = failures;
      next_run_at = now + ((if failures == 1 then 30 else 120) + w.id % 6) * second;
    }

abbrev pub interrupt : ℕ → WorkRef → WorkRow → WorkRow
interrupt now w (job b) =
    let f = interrupted now w b.work in
    let stop = leb 3 f.consecutive_failures in
    job (record b {
      work = f;
      error_code = some "worker_interrupted";
      status = if stop then JobStatus.failed else JobStatus.queued;
      finished_at = if stop then some now else none;
    })
interrupt now w (subscription s) =
    let f = interrupted now w s.work in
    let stop = leb 3 f.consecutive_failures in
    subscription (record s {
      work = f;
      last_error_code = some "worker_interrupted";
      blocked_reason = if stop then some "worker_interrupted" else s.blocked_reason;
    })

abbrev pub kind_text : WorkKind → String
kind_text backfill = "backfill"
kind_text polling = "polling"

abbrev outcome : WorkRow → Payload
outcome (job b) = ("status", words (status_text b.status)) ∷ []
outcome (subscription s) = ("blocked", flag (if is_none s.blocked_reason then false else true)) ∷ []

abbrev base_result : WorkRef → Payload
base_result w = ("error_code", words "worker_interrupted") ∷ ("kind", words (kind_text w.kind)) ∷ []

-- The notice of a target that has stopped for good.
unfoldable pub notice : Notices → WorkRow → Db → Db
unfolding announce_stopped
notice n target db =
    if leb 3 (fields target).consecutive_failures
    then record db { log = announce_stopped n target "worker_interrupted" db.log }
    else db

-- The `if target is not None and self._active(target)` of `_recover`, with the audit row.
unfoldable pub interrupt_target : Notices → ℕ → WorkRef → Option WorkRow → Db → Db
unfolding notice
interrupt_target n now w none db =
    audited w "market_data.lease_recovered" (base_result w ++ ("target_inactive", flag true) ∷ [])
      (("target_missing", flag true) ∷ []) db
interrupt_target n now w (some target) db =
    if is_active target
    then (let target' = interrupt now w target in
        audited w "market_data.lease_recovered"
          (base_result w
            ++ outcome target'
            ++ ("consecutive_failures", number (fields target').consecutive_failures) ∷ [])
          (state_of target) (notice n target' (save_target target' db)))
    else audited w "market_data.lease_recovered"
        (base_result w ++ ("target_inactive", flag true) ∷ []) (state_of target) db

unfoldable pub recover_work :
    Notices → ℕ → MarketDataLease → Option WorkKind → Option ℕ → Db → Result RuntimeError Db
unfolding interrupt_target target_of
recover_work n now l (some kind) (some id) db =
    let w : WorkRef = record { feed = l.feed; kind = kind; id = id } in
    let db' = interrupt_target n now w (target_of w db) db in
    ok (record db' { leases = put_lease (cleared l) db'.leases })
recover_work n now l _ _ db = err invalid_stored_lease_target

-- `_recover`: a lease row whose work is not named is an error.
unfoldable pub recover : Notices → ℕ → MarketDataLease → Db → Result RuntimeError Db
unfolding recover_work
recover n now l db = recover_work n now l l.work_kind l.work_id db
