-- ===== src/Lease/Tests.antt =====
-- The lease theorems at concrete tables, and runs of the transactions.
use ai_system_trading.Prelude.{
  ◌≤◌, ◌<◌, ◌≡◌, refl, true, false, none, some, List, [], ◌∷◌, ok, err, is_ok, arith,
}
use ai_system_trading.Lease.Types.{
  FeedKey, backfill, WorkRef, WorkRow, LeaseClaim, MarketDataLease, JobStatus, WorkerBackfill, Db,
  Notices, lease_of, put_lease, job,
}
use ai_system_trading.Lease.Recover.{target_of, target_of_kind, cleared, recover}
use ai_system_trading.Lease.Store.{
  Locks, ensure_lease, take, claim_target, claim_free, claim_row, claim_locked, claim, is_owned,
  heartbeat, release, lease_lost, guarded_write,
}
use ai_system_trading.Lease.Expiry.{recover_expired}
use ai_system_trading.Lease.Fencing.{Transaction, claiming, beating, recovering, run}
use ai_system_trading.Lease.Exclusion.{claim_granted, claim_excluded, takeover_fences}
use ai_system_trading.Lease.Whole.{IsWhole}
use ai_system_trading.Lease.Rollback.{run-IsWhole, run_recovers}
use ai_system_trading.Lease.Recovery.{Free, Interrupted, recover_interrupts}

abbrev notices : Notices
notices = record {
  recent = λ i. false;
  symbol = λ i. some "BTCUSDT";
  uuid_text = λ i. "instrument";
}

abbrev feed : FeedKey
feed = record { workspace_id = 1; instrument_id = 2; timeframe = "1m" }

abbrev work : WorkRef
work = record { feed = feed; kind = backfill; id = 3 }

abbrev queued_job : WorkerBackfill
queued_job = record {
  work = record {
    id = 3;
    feed = feed;
    next_fetch_at = none;
    next_run_at = 0;
    consecutive_failures = 0;
  };
  status = JobStatus.queued;
  attempts = 0;
  error_code = none;
  started_at = none;
  finished_at = none;
}

-- A lease of owner 8 with token 10, until 500.
abbrev old_lease : MarketDataLease
old_lease = record {
  feed = feed;
  owner_id = some 8;
  lease_token = some 10;
  lease_until = some 500;
  heartbeat_at = some 400;
  work_kind = some backfill;
  work_id = some 3;
}

abbrev db : Db
db = record {
  leases = old_lease ∷ [];
  backfills = queued_job ∷ [];
  subscriptions = [];
  audit = [];
  log = record { system_events = []; outbox = []; fresh = 20 };
}

abbrev idle_db : Db
idle_db = record db { leases = cleared old_lease ∷ [] }

abbrev old_claim : LeaseClaim
old_claim = record { work = work; owner_id = 8; token = 10; next_fetch_at = none }

abbrev new_claim : LeaseClaim
new_claim = record { work = work; owner_id = 9; token = 20; next_fetch_at = none }

abbrev free_locks : Locks
free_locks = record { advisory = true; row = true }

abbrev mark_succeeded : WorkRow → WorkRow
mark_succeeded t = t

abbrev later_calls : List Transaction
later_calls =
    beating new_claim 700 ∷ recovering (λ f. true) 5000 10 ∷ claiming work 8 5000 free_locks ∷ []

-- Owner 9's claim on the feed that nobody holds.
abbrev idle_claimed : Db
idle_claimed = (take notices 100 work 9 600 (cleared old_lease) (job queued_job) idle_db).1

claim_idle : claim notices 100 work 9 600 free_locks idle_db ≡ ok (some new_claim, idle_claimed)
unfolding claim claim_locked claim_row claim_free claim_target take ensure_lease lease_of put_lease
    target_of target_of_kind
claim_idle = refl

claim_granted_example :
    (new_claim.work ≡ work)
    × (new_claim.owner_id ≡ 9)
    × (20 ≤ new_claim.token)
    × (new_claim.token < idle_claimed.log.fresh)
    × (is_owned new_claim 650 (lease_of feed idle_claimed.leases) ≡ true)
claim_granted_example =
    claim_granted notices 100 work 9 600 free_locks new_claim idle_db idle_claimed 650 claim_idle
      (omega arith)

old_owned : is_owned old_claim 450 (lease_of feed db.leases) ≡ true
unfolding lease_of
old_owned = refl

claim_excluded_example : claim notices 100 work 9 450 free_locks db ≡ ok (none, db)
claim_excluded_example =
    claim_excluded notices 100 old_claim work 9 450 free_locks db refl old_owned

takeover_fences_example :
    (heartbeat 100 old_claim 5000 (run notices 100 later_calls idle_claimed)
      ≡ (false, run notices 100 later_calls idle_claimed))
    × (release old_claim 5000 (run notices 100 later_calls idle_claimed)
        ≡ (false, run notices 100 later_calls idle_claimed))
    × (guarded_write mark_succeeded true old_claim 5000 (run notices 100 later_calls idle_claimed)
        ≡ err lease_lost)
takeover_fences_example =
    takeover_fences notices 100 old_claim new_claim 9 600 free_locks idle_db idle_claimed
      later_calls 5000 mark_succeeded true (omega arith) refl (omega arith) claim_idle

db-IsWhole : IsWhole db
db-IsWhole = ((refl, refl, refl, refl, refl), tt)

run-IsWhole_example : IsWhole (run notices 100 later_calls db)
run-IsWhole_example = run-IsWhole notices 100 later_calls db db-IsWhole

run_recovers_example :
    (is_ok (claim notices 100 work 9 9000 free_locks (run notices 100 later_calls db)) ≡ true)
    × (is_ok (recover_expired notices (λ f. true) 9000 10 (run notices 100 later_calls db)) ≡ true)
run_recovers_example =
    run_recovers notices 100 later_calls work 9 9000 free_locks (λ f. true) 10 db db-IsWhole
      (omega arith) (omega arith)

db_target : target_of work db ≡ some (job queued_job)
unfolding target_of target_of_kind
db_target = refl

recover_interrupts_example :
    (db' : Db) × (t' : WorkRow) × (recover notices 600 old_lease db ≡ ok db')
    × (target_of work db' ≡ some t')
    × Interrupted 600 (job queued_job) t'
    × ((l' : MarketDataLease) × (lease_of feed db'.leases ≡ some l') × (l'.feed ≡ feed) × Free l')
recover_interrupts_example =
    recover_interrupts notices 600 old_lease backfill 3 (job queued_job) db refl refl ((tt, tt), tt)
      db_target refl
