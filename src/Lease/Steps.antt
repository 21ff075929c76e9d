-- ===== src/Lease/Steps.antt =====
-- The transactions as steps, each committed as a whole or not at all, and the tokens after them.
use ai_system_trading.Prelude.{
  ℕ, ◌+◌, ◌≡◌, refl, ap, ok_injective, Bool, true, false, not, ◌&&◌, ◌||◌, Option, none, some, List,
  [], ◌∷◌, inl, inr, ◌==◌, Result, ok, err, Bool-cases, Option-cases, arith, is_some, if◌then◌else◌,
  ◌>>=◌, >>=-eq-ok, leb, ltb, map_err,
}
use ai_system_trading.Prelude.Rows.{length}
use ai_system_trading.Lease.Types.{
  FeedKey, WorkRef, WorkRow, LeaseClaim, MarketDataLease, Db, Notices, RuntimeError, lease_of,
  put_lease, feed_equality, feed_beq_iff, fields,
}
use ai_system_trading.Lease.Recover.{target_of, save_target, is_active, cleared, recover}
use ai_system_trading.Lease.Store.{
  Locks, blank, ensure_lease, is_held, started, taken, take, claim_target, claim_free, claim_row,
  claim_locked, claim, is_owned, with_lease, renewed, heartbeat, release, LeaseLost, may_write,
  write, guarded_write,
}
use ai_system_trading.Lease.Expiry.{chosen, recover_each, recover_expired, stopped_by}
use ai_system_trading.Lease.Tokens.{
  Grows, Grows-refl, Grows-trans, Grows-frame, Grows-put, Grows-cleared, save_target-leases,
  save_target-log, recover-Grows,
}

-- What the table holds when the transaction has ended: an error rolls it back.
abbrev pub committed : {E A : Type 0} → Db → Result E (A × Db) → Db
committed db (ok (a, db')) = db'
committed db (err e) = db

abbrev pub committed_write : Db → Result LeaseLost Db → Db
committed_write db (ok db') = db'
committed_write db (err e) = db

Grows-committed :
    {E A : Type 0} {db mid : Db}
    → Grows db mid
    → (r : Result E (A × Db)) → Grows mid (committed mid r)
    → Grows db (committed db r)
Grows-committed g (ok (a, db')) h = Grows-trans g h
Grows-committed {db = db} g (err e) h = Grows-refl db

pub ensure_lease-Grows : (f : FeedKey) (db : Db) → Grows db (ensure_lease f db)
unfolding ensure_lease
ensure_lease-Grows f db = elim (Option-cases (lease_of f db.leases)) [
  | inl missing ↦
      rw (missing, ensure_lease)
        (Grows-cleared (blank f) db (record db { leases = put_lease (blank f) db.leases }) refl
          (omega arith))
  | inr (l, found) ↦ rw (found, ensure_lease) (Grows-refl db)
]

write-Grows : (body : WorkRow → WorkRow) (t : Option WorkRow) (db : Db) → Grows db (write body t db)
write-Grows body none db = Grows-refl db
write-Grows body (some t) db =
    Grows-frame db (save_target (body t) db) (save_target-leases (body t) db)
      (omega (arith, ap (λ g. g.fresh) (save_target-log (body t) db)))

cleared-Grows : (o : Option MarketDataLease) (db : Db) → Grows db (with_lease cleared o db)
cleared-Grows none db = Grows-refl db
cleared-Grows (some l) db =
    Grows-cleared l db (record db { leases = put_lease (cleared l) db.leases }) refl (omega arith)

pub lease_of_feed :
    (f : FeedKey) (ls : List MarketDataLease) (l : MarketDataLease)
    → lease_of f ls ≡ some l
    → l.feed ≡ f
unfolding lease_of
lease_of_feed f [] l e = cc
lease_of_feed f (k ∷ ls) l e = elim (Bool-cases (k.feed == f)) [
  | inl hit ↦ (feed_beq_iff l.feed f).0 (ground arith)
  | inr miss ↦ lease_of_feed f ls l (ground arith)
]

renewed-Grows :
    (duration now : ℕ) (f : FeedKey) (db : Db) (o : Option MarketDataLease)
    → lease_of f db.leases ≡ o
    → Grows db (with_lease (renewed duration now) o db)
renewed-Grows duration now f db none e = Grows-refl db
renewed-Grows duration now f db (some l) e =
    Grows-put (renewed duration now l) db
      (record db { leases = put_lease (renewed duration now l) db.leases }) refl (omega arith)
      (λ k h. inl (rw (lease_of_feed f db.leases l e, e) h))

pub heartbeat-Grows :
    (duration : ℕ) (c : LeaseClaim) (now : ℕ) (db : Db) → Grows db (heartbeat duration c now db).1
unfolding heartbeat
heartbeat-Grows duration c now db =
    elim (Bool-cases (is_owned c now (lease_of c.work.feed db.leases))) [
      | inl owned ↦
          rw owned (renewed-Grows duration now c.work.feed db (lease_of c.work.feed db.leases) refl)
      | inr lost ↦ rw lost (Grows-refl db)
    ]

pub release-Grows : (c : LeaseClaim) (now : ℕ) (db : Db) → Grows db (release c now db).1
unfolding release
release-Grows c now db = elim (Bool-cases (is_owned c now (lease_of c.work.feed db.leases))) [
  | inl owned ↦ rw owned (cleared-Grows (lease_of c.work.feed db.leases) db)
  | inr lost ↦ rw lost (Grows-refl db)
]

pub guarded_write-Grows :
    (body : WorkRow → WorkRow) (releases : Bool) (c : LeaseClaim) (now : ℕ) (db : Db)
    → Grows db (committed_write db (guarded_write body releases c now db))
unfolding guarded_write
guarded_write-Grows body releases c now db =
    elim (Bool-cases
      (is_owned c now (lease_of c.work.feed db.leases) && may_write c (target_of c.work db))) [
        | inl may ↦ rw may (finish releases)
        | inr lost ↦ rw lost (Grows-refl db)
      ]
  where
    finish :
        (r : Bool)
        → Grows db (
            if r
            then with_lease cleared
                (lease_of c.work.feed db.leases)
                (write body (target_of c.work db) db)
            else write body (target_of c.work db) db)
    finish true =
        Grows-trans (write-Grows body (target_of c.work db) db)
          (cleared-Grows (lease_of c.work.feed db.leases) _)
    finish false = write-Grows body (target_of c.work db) db

module _ (n : Notices) (duration : ℕ) where
  take-Grows :
      (w : WorkRef) (owner now : ℕ) (l : MarketDataLease) (target : WorkRow) (db : Db)
      → Grows db (take n duration w owner now l target db).1
  unfolding take
  take-Grows w owner now l target db =
      let mid : Db = record db {
        leases = put_lease (taken duration now w owner db.log.fresh l) db.leases;
        log = record db.log { fresh = db.log.fresh + 1 };
      } in
      let t = started now target in
      Grows-put (taken duration now w owner db.log.fresh l) db _ (save_target-leases t mid)
        (omega (arith, ap (λ g. g.fresh) (save_target-log t mid)))
        (λ k e. inr (ground (arith, ap (λ g. g.fresh) (save_target-log t mid))))

  claim_target-Grows :
      (w : WorkRef) (owner now : ℕ) (l : MarketDataLease) (o : Option WorkRow) (db : Db)
      → Grows db (claim_target n duration w owner now l o db).1
  unfolding claim_target
  claim_target-Grows w owner now l none db = Grows-refl db
  claim_target-Grows w owner now l (some t) db =
      elim (Bool-cases (not (is_active t) || ltb now (fields t).next_run_at)) [
        | inl early ↦ rw early (Grows-refl db)
        | inr due ↦ rw due (take-Grows w owner now l t db)
      ]

  claim_row-Grows :
      (w : WorkRef) (owner now : ℕ) (l : MarketDataLease) (db : Db)
      → Grows db (committed db (claim_row n duration w owner now l db))
  unfolding claim_row claim_free
  claim_row-Grows w owner now l db = elim (Bool-cases (is_held now l)) [
    | inl held ↦ rw held (Grows-refl db)
    | inr free ↦ elim (Bool-cases (is_some l.lease_token)) [
      | inl expired ↦ rw (free, expired) (recovered (recover n now l db) refl)
      | inr clear ↦ rw (free, clear) (claim_target-Grows w owner now l (target_of w db) db)
    ]
  ]
    where
      recovered :
          (r : Result RuntimeError Db)
          → recover n now l db ≡ r
          → Grows db
              (committed db (r >>= λ db'. ok (claim_free n duration w owner now (cleared l) db')))
      recovered (ok db') e =
          Grows-trans (recover-Grows n now l db db' e)
            (claim_target-Grows w owner now (cleared l) (target_of w db') db')
      recovered (err x) e = Grows-refl db

  pub claim-Grows :
      (w : WorkRef) (owner now : ℕ) (locks : Locks) (db : Db)
      → Grows db (committed db (claim n duration w owner now locks db))
  unfolding claim claim_locked
  claim-Grows w owner now locks db = elim (Bool-cases locks.advisory) [
    | inr busy ↦ rw busy (Grows-refl db)
    | inl got ↦ elim (Bool-cases locks.row) [
      | inr busy ↦ rw (got, busy) (ensure_lease-Grows w.feed db)
      | inl both ↦
          rw (got, both)
            (Grows-committed (ensure_lease-Grows w.feed db)
              (claim_locked n duration w owner now (lease_of w.feed (ensure_lease w.feed db).leases)
                (ensure_lease w.feed db))
              (locked (lease_of w.feed (ensure_lease w.feed db).leases) (ensure_lease w.feed db)))
    ]
  ]
    where
      locked :
          (o : Option MarketDataLease) (mid : Db)
          → Grows mid (committed mid (claim_locked n duration w owner now o mid))
      locked none mid = Grows-refl mid
      locked (some l) mid = claim_row-Grows w owner now l mid

recover_each-Grows :
    (n : Notices) (now : ℕ) (ls : List MarketDataLease) (db db' : Db)
    → recover_each n now ls db ≡ ok db'
    → Grows db db'
unfolding recover_each
recover_each-Grows n now [] db db' e = rw (← ok_injective db db' e) (Grows-refl db)
recover_each-Grows n now (l ∷ ls) db db' e =
    let (mid, first, rest) = >>=-eq-ok (recover n now l db) (recover_each n now ls) db' e in
    Grows-trans (recover-Grows n now l db mid first) (recover_each-Grows n now ls mid db' rest)

pub recover_expired-Grows :
    (n : Notices) (free : FeedKey → Bool) (now limit : ℕ) (db : Db)
    → Grows db (committed db (recover_expired n free now limit db))
unfolding recover_expired
recover_expired-Grows n free now limit db = elim (Bool-cases (leb 1 limit && leb limit 1000)) [
  | inl within ↦ rw within (done (recover_each n now (chosen free now limit db) db) refl)
  | inr out ↦ rw out (Grows-refl db)
]
  where
    done :
        (r : Result RuntimeError Db)
        → recover_each n now (chosen free now limit db) db ≡ r
        → Grows db (
            committed db
              (map_err stopped_by (r >>= λ db'. ok (length (chosen free now limit db), db'))))
    done (ok db') e = recover_each-Grows n now (chosen free now limit db) db db' e
    done (err x) e = Grows-refl db
