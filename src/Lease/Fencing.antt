-- ===== src/Lease/Fencing.antt =====
-- Fencing: the store's transactions in any order, and a claim whose token has passed.
use ai_system_trading.Prelude.{
  ℕ, ◌<◌, ◌≡◌, ◌≢◌, refl, Bool, true, false, ◌&&◌, Option, none, some, List, [], ◌∷◌, inl, inr,
  ◌==◌, nat_equality, err, Bool-cases, arith,
}
use ai_system_trading.Lease.Types.{
  FeedKey, WorkRef, WorkRow, LeaseClaim, MarketDataLease, Db, Notices, lease_of,
}
use ai_system_trading.Lease.Store.{
  Locks, claim, id_is, is_owned, heartbeat, release, lease_lost, guarded_write,
}
use ai_system_trading.Lease.Expiry.{recover_expired}
use ai_system_trading.Lease.Tokens.{token_in, token_at, Grows, Grows-refl, Grows-trans}
use ai_system_trading.Lease.Steps.{
  committed, committed_write, claim-Grows, heartbeat-Grows, release-Grows, guarded_write-Grows,
  recover_expired-Grows,
}

-- The store's transactions, by any worker at any time.
pub data Transaction : Type 0 where
  claiming : WorkRef → ℕ → ℕ → Locks → Transaction
  beating : LeaseClaim → ℕ → Transaction
  releasing : LeaseClaim → ℕ → Transaction
  writing : (WorkRow → WorkRow) → Bool → LeaseClaim → ℕ → Transaction
  recovering : (FeedKey → Bool) → ℕ → ℕ → Transaction

module _ (n : Notices) (duration : ℕ) where
  abbrev pub perform : Transaction → Db → Db
  perform (claiming w owner now locks) db = committed db (claim n duration w owner now locks db)
  perform (beating c now) db = (heartbeat duration c now db).1
  perform (releasing c now) db = (release c now db).1
  perform (writing body releases c now) db =
      committed_write db (guarded_write body releases c now db)
  perform (recovering free now limit) db = committed db (recover_expired n free now limit db)

  unfoldable pub run : List Transaction → Db → Db
  run [] db = db
  run (t ∷ ts) db = run ts (perform t db)

  perform-Grows : (t : Transaction) (db : Db) → Grows db (perform t db)
  perform-Grows (claiming w owner now locks) db = claim-Grows n duration w owner now locks db
  perform-Grows (beating c now) db = heartbeat-Grows duration c now db
  perform-Grows (releasing c now) db = release-Grows c now db
  perform-Grows (writing body releases c now) db = guarded_write-Grows body releases c now db
  perform-Grows (recovering free now limit) db = recover_expired-Grows n free now limit db

  pub run-Grows : (ts : List Transaction) (db : Db) → Grows db (run ts db)
  unfolding run
  run-Grows [] db = Grows-refl db
  run-Grows (t ∷ ts) db = Grows-trans (perform-Grows t db) (run-Grows ts (perform t db))

first_token : (o : Option ℕ) (rest : Bool) {k : ℕ} → (id_is o k && rest) ≡ true → o ≡ some k
first_token none rest h = cc
first_token (some j) rest {k} h = rw ((nat_equality.beq_iff j k).0 (head (j == k) rest h)) refl
  where
    head : (a b : Bool) → (a && b) ≡ true → a ≡ true
    head a b e = ground arith

-- A lease that a claim owns has its token.
pub is_owned_token :
    (c : LeaseClaim) (now : ℕ) (o : Option MarketDataLease)
    → is_owned c now o ≡ true
    → token_in o ≡ some c.token
is_owned_token c now none h = cc
is_owned_token c now (some l) h = first_token l.lease_token _ h

-- A claim whose token is an issued one and is not its feed's token now is dead: after any
-- transactions, by any workers and at any times, it cannot renew the lease, nor release it, nor
-- write, and its attempts change nothing.
pub run_fences :
    (n : Notices) (duration : ℕ) (c : LeaseClaim) (db : Db) (ts : List Transaction) (now : ℕ)
    (body : WorkRow → WorkRow) (releases : Bool)
    → c.token < db.log.fresh
    → token_at c.work.feed db ≢ some c.token
    → (heartbeat duration c now (run n duration ts db) ≡ (false, run n duration ts db))
      × (release c now (run n duration ts db) ≡ (false, run n duration ts db))
      × (guarded_write body releases c now (run n duration ts db) ≡ err lease_lost)
unfolding heartbeat release guarded_write
run_fences n duration c db ts now body releases issued passed =
    let after = run n duration ts db in
    let lost : is_owned c now (lease_of c.work.feed after.leases) ≡ false =
      dead (run-Grows n duration ts db) in
    (rw lost refl, rw lost refl, rw lost refl)
  where
    dead :
        {after : Db} → Grows db after → is_owned c now (lease_of c.work.feed after.leases) ≡ false
    dead {after} g = elim (Bool-cases (is_owned c now (lease_of c.work.feed after.leases))) [
      | inr lost ↦ lost
      | inl owned ↦ elim (g.tokens c.work.feed c.token (is_owned_token c now _ owned)) [
        | inl still ↦ absurd (passed still)
        | inr new ↦ absurd (omega (arith, new.0, issued))
      ]
    ]
