-- ===== src/Lease/Rollback.antt =====
-- The lease table over any transactions, and their errors.
use mathlib.Core.Path.{subst}
use ai_system_trading.Prelude.{
  ℕ, ◌+◌, ◌≤◌, ◌≡◌, refl, sym, Bool, true, false, not, ◌&&◌, ◌||◌, Option, none, some, List, [],
  ◌∷◌, inl, inr, Result, ok, err, is_ok, Bool-cases, Option-cases, arith, leb, ltb, if◌then◌else◌,
  is_some,
}
use ai_system_trading.Prelude.Rows.{All}
use ai_system_trading.Lease.Types.{
  FeedKey, WorkRef, WorkRow, LeaseClaim, MarketDataLease, Db, Notices, lease_of, put_lease,
  feed_equality, fields,
}
use ai_system_trading.Lease.Recover.{target_of, save_target, is_active, cleared}
use ai_system_trading.Lease.Store.{
  Locks, blank, ensure_lease, is_held, started, taken, take, claim_target, claim_free, claim_row,
  claim_locked, claim, is_owned, with_lease, renewed, heartbeat, release, may_write, write,
  guarded_write,
}
use ai_system_trading.Lease.Expiry.{chosen, recover_expired}
use ai_system_trading.Lease.Tokens.{save_target-leases}
use ai_system_trading.Lease.Steps.{committed, committed_write}
use ai_system_trading.Lease.Fencing.{
  Transaction, claiming, beating, releasing, writing, recovering, perform, run, is_owned_token,
}
use ai_system_trading.Lease.Whole.{
  Whole, IsWhole, All-put, All-lease_of, recover_named, Recovered-IsWhole, Named, All-select,
  All-by_end, All-first, recover_each-Named,
}

-- A result that is no error and leaves a whole table.
abbrev Succeeds : {E A : Type 0} → Result E (A × Db) → Type 0
Succeeds (ok (a, db)) = IsWhole db
Succeeds (err e) = ⊥

ensure_lease-IsWhole : (f : FeedKey) (db : Db) → IsWhole db → IsWhole (ensure_lease f db)
unfolding ensure_lease
ensure_lease-IsWhole f db v = elim (Option-cases (lease_of f db.leases)) [
  | inl missing ↦
      rw (missing, ensure_lease) (All-put (blank f) db.leases (refl, refl, refl, refl, refl) v)
  | inr (l, found) ↦ rw (found, ensure_lease) v
]

save_target-IsWhole : (t : WorkRow) (db : Db) → IsWhole db → IsWhole (save_target t db)
save_target-IsWhole t db v = subst (All Whole) (sym (save_target-leases t db)) v

module _ (n : Notices) (duration : ℕ) (w : WorkRef) (owner now : ℕ) where
  claim_target-IsWhole :
      (l : MarketDataLease) (o : Option WorkRow) (db : Db)
      → IsWhole db
      → IsWhole (claim_target n duration w owner now l o db).1
  unfolding claim_target take
  claim_target-IsWhole l none db v = v
  claim_target-IsWhole l (some t) db v =
      elim (Bool-cases (not (is_active t) || ltb now (fields t).next_run_at)) [
        | inl early ↦ rw early v
        | inr due ↦
            let mid : Db = record db {
              leases = put_lease (taken duration now w owner db.log.fresh l) db.leases;
              log = record db.log { fresh = db.log.fresh + 1 };
            } in
            rw due (
              save_target-IsWhole (started now t) mid (
                All-put (taken duration now w owner db.log.fresh l) db.leases
                  (refl, refl, refl, refl, refl) v))
      ]

  claim_row-Succeeds :
      (l : MarketDataLease) (db : Db)
      → Whole l
      → IsWhole db
      → Succeeds (claim_row n duration w owner now l db)
  unfolding claim_row claim_free
  claim_row-Succeeds l db whole v = elim (Bool-cases (is_held now l)) [
    | inl held ↦ rw held v
    | inr free ↦ elim (Bool-cases (is_some l.lease_token)) [
      | inl expired ↦
          let r = recover_named n now l db whole expired in
          rw (free, expired)
            (rw (r.succeeds) (
              claim_target-IsWhole (cleared l) (target_of w r.after) r.after
                (Recovered-IsWhole n now l db r v)))
      | inr clear ↦ rw (free, clear) (claim_target-IsWhole l (target_of w db) db v)
    ]
  ]

  claim_locked-Succeeds :
      (o : Option MarketDataLease) (db : Db)
      → lease_of w.feed db.leases ≡ o
      → IsWhole db
      → Succeeds (claim_locked n duration w owner now o db)
  unfolding claim_locked
  claim_locked-Succeeds none db e v = v
  claim_locked-Succeeds (some l) db e v =
      claim_row-Succeeds l db (All-lease_of w.feed l db.leases v e) v

  claim-Succeeds :
      (locks : Locks) (db : Db) → IsWhole db → Succeeds (claim n duration w owner now locks db)
  unfolding claim
  claim-Succeeds locks db v = elim (Bool-cases locks.advisory) [
    | inr busy ↦ rw busy v
    | inl got ↦ elim (Bool-cases locks.row) [
      | inr busy ↦ rw (got, busy) (ensure_lease-IsWhole w.feed db v)
      | inl both ↦
          rw (got, both)
            (claim_locked-Succeeds (lease_of w.feed (ensure_lease w.feed db).leases)
              (ensure_lease w.feed db) refl (ensure_lease-IsWhole w.feed db v))
    ]
  ]

chosen-Named :
    (free : FeedKey → Bool) (now limit : ℕ) (db : Db)
    → IsWhole db
    → All Named (chosen free now limit db)
unfolding chosen
chosen-Named free now limit db v =
    All-first Named limit _ (All-by_end Named _ (All-select now (λ l. free l.feed) db.leases v))

recover_expired-Succeeds :
    (n : Notices) (free : FeedKey → Bool) (now limit : ℕ) (db : Db)
    → IsWhole db
    → (leb 1 limit && leb limit 1000) ≡ true
    → Succeeds (recover_expired n free now limit db)
unfolding recover_expired
recover_expired-Succeeds n free now limit db v within =
    let r =
      recover_each-Named n now (chosen free now limit db) db (chosen-Named free now limit db v) v in
    rw (within) (rw (r.succeeds) r.valid)

Succeeds-committed :
    {E A : Type 0} (db : Db) (r : Result E (A × Db)) → Succeeds r → IsWhole (committed db r)
Succeeds-committed db (ok (a, db')) h = h
Succeeds-committed db (err e) h = absurd h

owned-Whole :
    (duration now t : ℕ) (c : LeaseClaim) (l : MarketDataLease)
    → is_owned c t (some l) ≡ true
    → Whole l
    → Whole (renewed duration now l)
owned-Whole duration now t c l owned whole = (
  whole.0,
  whole.1,
  sym (rw (is_owned_token c t (some l) owned) refl),
  whole.3,
  sym (rw (is_owned_token c t (some l) owned) refl),
)

heartbeat-IsWhole :
    (duration : ℕ) (c : LeaseClaim) (now : ℕ) (db : Db)
    → IsWhole db
    → IsWhole (heartbeat duration c now db).1
unfolding heartbeat
heartbeat-IsWhole duration c now db v =
    elim (Bool-cases (is_owned c now (lease_of c.work.feed db.leases))) [
      | inl owned ↦ rw owned (go (lease_of c.work.feed db.leases) refl owned)
      | inr lost ↦ rw lost v
    ]
  where
    go :
        (o : Option MarketDataLease)
        → lease_of c.work.feed db.leases ≡ o
        → is_owned c now o ≡ true
        → IsWhole (with_lease (renewed duration now) o db)
    go none e owned = v
    go (some l) e owned =
        All-put (renewed duration now l) db.leases
          (owned-Whole duration now now c l owned (All-lease_of c.work.feed l db.leases v e)) v

cleared-IsWhole :
    (o : Option MarketDataLease) (db : Db) → IsWhole db → IsWhole (with_lease cleared o db)
cleared-IsWhole none db v = v
cleared-IsWhole (some l) db v = All-put (cleared l) db.leases (refl, refl, refl, refl, refl) v

release-IsWhole : (c : LeaseClaim) (now : ℕ) (db : Db) → IsWhole db → IsWhole (release c now db).1
unfolding release
release-IsWhole c now db v = elim (Bool-cases (is_owned c now (lease_of c.work.feed db.leases))) [
  | inl owned ↦ rw owned (cleared-IsWhole (lease_of c.work.feed db.leases) db v)
  | inr lost ↦ rw lost v
]

write-IsWhole :
    (body : WorkRow → WorkRow) (t : Option WorkRow) (db : Db)
    → IsWhole db
    → IsWhole (write body t db)
write-IsWhole body none db v = v
write-IsWhole body (some t) db v = save_target-IsWhole (body t) db v

guarded_write-IsWhole :
    (body : WorkRow → WorkRow) (releases : Bool) (c : LeaseClaim) (now : ℕ) (db : Db)
    → IsWhole db
    → IsWhole (committed_write db (guarded_write body releases c now db))
unfolding guarded_write
guarded_write-IsWhole body releases c now db v =
    elim (Bool-cases
      (is_owned c now (lease_of c.work.feed db.leases) && may_write c (target_of c.work db))) [
        | inl may ↦ rw may (finish releases)
        | inr lost ↦ rw lost v
      ]
  where
    finish :
        (r : Bool)
        → IsWhole (
            if r
            then with_lease cleared
                (lease_of c.work.feed db.leases)
                (write body (target_of c.work db) db)
            else write body (target_of c.work db) db)
    finish true =
        cleared-IsWhole (lease_of c.work.feed db.leases) _
          (write-IsWhole body (target_of c.work db) db v)
    finish false = write-IsWhole body (target_of c.work db) db v

perform-IsWhole :
    (n : Notices) (duration : ℕ) (t : Transaction) (db : Db)
    → IsWhole db
    → IsWhole (perform n duration t db)
unfolding recover_expired
perform-IsWhole n duration (claiming w owner now locks) db v =
    Succeeds-committed db _ (claim-Succeeds n duration w owner now locks db v)
perform-IsWhole n duration (beating c now) db v = heartbeat-IsWhole duration c now db v
perform-IsWhole n duration (releasing c now) db v = release-IsWhole c now db v
perform-IsWhole n duration (writing body releases c now) db v =
    guarded_write-IsWhole body releases c now db v
perform-IsWhole n duration (recovering free now limit) db v =
    elim (Bool-cases (leb 1 limit && leb limit 1000)) [
      | inl within ↦ Succeeds-committed db _ (recover_expired-Succeeds n free now limit db v within)
      | inr out ↦ refused out
    ]
  where
    refused :
        (leb 1 limit && leb limit 1000) ≡ false
        → IsWhole (committed db (recover_expired n free now limit db))
    refused out = rw (out, recover_expired) v

-- Whatever transactions run, each lease of the table stays either blank or complete: its owner,
-- its token, its end, its heartbeat, and its work's kind and identifier are all set or all unset.
pub run-IsWhole :
    (n : Notices) (duration : ℕ) (ts : List Transaction) (db : Db)
    → IsWhole db
    → IsWhole (run n duration ts db)
unfolding run
run-IsWhole n duration [] db v = v
run-IsWhole n duration (t ∷ ts) db v =
    run-IsWhole n duration ts (perform n duration t db) (perform-IsWhole n duration t db v)

Succeeds-is_ok : {E A : Type 0} (r : Result E (A × Db)) → Succeeds r → is_ok r ≡ true
Succeeds-is_ok (ok x) h = refl
Succeeds-is_ok (err e) h = absurd h

-- From a whole table, whatever transactions have run since, neither a claim nor a recovery of
-- 1 to 1000 expired leases stops on a stored lease that does not name its work.
pub run_recovers :
    (n : Notices) (duration : ℕ) (ts : List Transaction) (w : WorkRef) (owner now : ℕ)
    (locks : Locks) (free : FeedKey → Bool) (limit : ℕ) (db : Db)
    → IsWhole db
    → 1 ≤ limit
    → limit ≤ 1000
    → (is_ok (claim n duration w owner now locks (run n duration ts db)) ≡ true)
      × (is_ok (recover_expired n free now limit (run n duration ts db)) ≡ true)
run_recovers n duration ts w owner now locks free limit db v low high =
    let v' = run-IsWhole n duration ts db v in
    (
      Succeeds-is_ok _ (claim-Succeeds n duration w owner now locks (run n duration ts db) v'),
      Succeeds-is_ok _
          (recover_expired-Succeeds n free now limit (run n duration ts db) v' (ground arith)),
    )
