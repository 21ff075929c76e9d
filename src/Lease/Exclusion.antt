-- ===== src/Lease/Exclusion.antt =====
-- What a claim that succeeds holds, and other claims on the feed while it does and after it.
use ai_system_trading.Prelude.{
  ℕ, ◌+◌, ◌≤◌, ◌<◌, ◌≡◌, refl, sym, ap, ◌∙◌, Bool, true, false, not, ◌&&◌, ◌||◌, Option, none, some,
  List, inl, inr, nat_equality, Result, ok, err, ◌>>=◌, Bool-cases, Option-cases, arith, beq_refl,
  ltb, lt→ltb, is_some,
}
use mathlib.Core.Path.{subst}
use ai_system_trading.Lease.Types.{
  WorkKind, kind_beq, WorkRef, WorkRow, LeaseClaim, MarketDataLease, Db, Notices, RuntimeError,
  lease_of, put_lease, lease_of-put_lease, feed_equality, fields,
}
use ai_system_trading.Lease.Recover.{target_of, is_active, cleared, recover}
use ai_system_trading.Lease.Store.{
  Locks, ensure_lease, is_held, started, taken, take, claim_target, claim_free, claim_row,
  claim_locked, claim, id_is, kind_is, until_after, until_later, is_owned, heartbeat, release,
  lease_lost, guarded_write,
}
use ai_system_trading.Lease.Tokens.{token_at, save_target-leases, save_target-log, recover-Grows}
use ai_system_trading.Lease.Steps.{lease_of_feed, ensure_lease-Grows}
use ai_system_trading.Lease.Fencing.{Transaction, is_owned_token, run, run_fences}

kind_beq_refl : (k : WorkKind) → kind_beq k k ≡ true
kind_beq_refl WorkKind.backfill = refl
kind_beq_refl WorkKind.polling = refl

-- The claim is for the work and the owner asked for, its token is new, and until `now + duration`
-- the feed's lease is the claim's.
record Grants (duration : ℕ) (w : WorkRef) (owner now floor : ℕ) (c : LeaseClaim) (db : Db)
    : Type 0 where
  pub work : c.work ≡ w
  pub owner_id : c.owner_id ≡ owner
  pub new : floor ≤ c.token
  pub used : c.token < db.log.fresh
  pub owned : (t : ℕ) → t < now + duration → is_owned c t (lease_of w.feed db.leases) ≡ true

module _ (n : Notices) (duration : ℕ) (w : WorkRef) (owner now : ℕ) where
  abbrev GrantsIf : ℕ → Option LeaseClaim × Db → Type 0
  GrantsIf floor (none, db) = Unit
  GrantsIf floor (some c, db) = Grants duration w owner now floor c db

  abbrev GrantsOk : ℕ → Result RuntimeError (Option LeaseClaim × Db) → Type 0
  GrantsOk floor (ok r) = GrantsIf floor r
  GrantsOk floor (err e) = Unit

  take-Grants :
      (l : MarketDataLease) (target : WorkRow) (floor : ℕ) (db : Db)
      → l.feed ≡ w.feed
      → floor ≤ db.log.fresh
      → Grants duration w owner now floor
          (take n duration w owner now l target db).0
          (take n duration w owner now l target db).1
  unfolding take
  take-Grants l target floor db same low =
      let mid : Db = record db {
        leases = put_lease (taken duration now w owner db.log.fresh l) db.leases;
        log = record db.log { fresh = db.log.fresh + 1 };
      } in
      let t = started now target in
      let row : lease_of w.feed (take n duration w owner now l target db).1.leases
          ≡ some (taken duration now w owner db.log.fresh l) =
        ap (lease_of w.feed) (save_target-leases t mid)
        ∙ rw
            (
              lease_of-put_lease w.feed (taken duration now w owner db.log.fresh l) db.leases,
              same,
              beq_refl w.feed,
            )
            refl in
      record {
        work = refl;
        owner_id = refl;
        new = low;
        used = omega (arith, ap (λ g. g.fresh) (save_target-log t mid));
        owned = λ u h.
            rw
              (
                row,
                beq_refl db.log.fresh,
                beq_refl owner,
                kind_beq_refl w.kind,
                beq_refl w.id,
                lt→ltb u (now + duration) h,
              )
              refl;
      }

  claim_target-Grants :
      (l : MarketDataLease) (o : Option WorkRow) (floor : ℕ) (db : Db)
      → l.feed ≡ w.feed
      → floor ≤ db.log.fresh
      → GrantsIf floor (claim_target n duration w owner now l o db)
  unfolding claim_target
  claim_target-Grants l none floor db same low = tt
  claim_target-Grants l (some t) floor db same low =
      elim (Bool-cases (not (is_active t) || ltb now (fields t).next_run_at)) [
        | inl early ↦ rw early tt
        | inr due ↦ rw due (take-Grants l t floor db same low)
      ]

  claim_row-Grants :
      (l : MarketDataLease) (floor : ℕ) (db : Db)
      → l.feed ≡ w.feed
      → floor ≤ db.log.fresh
      → GrantsOk floor (claim_row n duration w owner now l db)
  unfolding claim_row claim_free
  claim_row-Grants l floor db same low = elim (Bool-cases (is_held now l)) [
    | inl held ↦ rw held tt
    | inr free ↦ elim (Bool-cases (is_some l.lease_token)) [
      | inl expired ↦ rw (free, expired) (recovered (recover n now l db) refl)
      | inr clear ↦ rw (free, clear) (claim_target-Grants l (target_of w db) floor db same low)
    ]
  ]
    where
      recovered :
          (r : Result RuntimeError Db)
          → recover n now l db ≡ r
          → GrantsOk floor (r >>= λ db'. ok (claim_free n duration w owner now (cleared l) db'))
      recovered (ok db') e =
          let later : db.log.fresh ≤ db'.log.fresh = (recover-Grows n now l db db' e).later in
          claim_target-Grants (cleared l) (target_of w db') floor db' same
            (omega (arith, later, low))
      recovered (err x) e = tt

  claim_locked-Grants :
      (o : Option MarketDataLease) (floor : ℕ) (db : Db)
      → lease_of w.feed db.leases ≡ o
      → floor ≤ db.log.fresh
      → GrantsOk floor (claim_locked n duration w owner now o db)
  unfolding claim_locked
  claim_locked-Grants none floor db e low = tt
  claim_locked-Grants (some l) floor db e low =
      claim_row-Grants l floor db (lease_of_feed w.feed db.leases l e) low

  claim-GrantsOk :
      (locks : Locks) (db : Db) → GrantsOk db.log.fresh (claim n duration w owner now locks db)
  unfolding claim
  claim-GrantsOk locks db = elim (Bool-cases locks.advisory) [
    | inr busy ↦ rw busy tt
    | inl got ↦ elim (Bool-cases locks.row) [
      | inr busy ↦ rw (got, busy) tt
      | inl both ↦
          rw (got, both)
            (claim_locked-Grants (lease_of w.feed (ensure_lease w.feed db).leases) db.log.fresh
              (ensure_lease w.feed db) refl ((ensure_lease-Grows w.feed db).later))
    ]
  ]

claim-Grants :
    (n : Notices) (duration : ℕ) (w : WorkRef) (owner now : ℕ) (locks : Locks) (c : LeaseClaim)
    (db db' : Db)
    → claim n duration w owner now locks db ≡ ok (some c, db')
    → Grants duration w owner now db.log.fresh c db'
claim-Grants n duration w owner now locks c db db' e =
    subst (GrantsOk n duration w owner now db.log.fresh) e
      (claim-GrantsOk n duration w owner now locks db)

-- A claim that succeeds is for the work and the owner asked for, its token was never used before
-- the call and is used after it, and at every time before `now + duration` the feed's lease
-- belongs to it.
pub claim_granted :
    (n : Notices) (duration : ℕ) (w : WorkRef) (owner now : ℕ) (locks : Locks) (c : LeaseClaim)
    (db db' : Db) (t : ℕ)
    → claim n duration w owner now locks db ≡ ok (some c, db')
    → t < now + duration
    → (c.work ≡ w)
      × (c.owner_id ≡ owner)
      × (db.log.fresh ≤ c.token)
      × (c.token < db'.log.fresh)
      × (is_owned c t (lease_of w.feed db'.leases) ≡ true)
claim_granted n duration w owner now locks c db db' t e early =
    let g = claim-Grants n duration w owner now locks c db db' e in
    (g.work, g.owner_id, g.new, g.used, g.owned t early)

owned_held :
    (c : LeaseClaim) (now : ℕ) (l : MarketDataLease)
    → is_owned c now (some l) ≡ true
    → is_held now l ≡ true
owned_held c now l h =
    let token = is_owned_token c now (some l) h in
    rw token (
      last l.lease_until (
        tail5 (id_is l.lease_token c.token) (id_is l.owner_id c.owner_id)
          (kind_is l.work_kind c.work.kind) (id_is l.work_id c.work.id)
          (until_later now l.lease_until) h))
  where
    tail5 : (a b d e f : Bool) → (a && (b && (d && (e && f)))) ≡ true → f ≡ true
    tail5 a b d e f h = ground arith

    last : (u : Option ℕ) → until_later now u ≡ true → until_after now u ≡ true
    last none h = cc
    last (some u) h = h

-- While a claim owns its feed's lease, no claim for that feed succeeds, by whatever worker, for
-- whatever work and with whatever locks, and the attempt changes nothing.
pub claim_excluded :
    (n : Notices) (duration : ℕ) (c : LeaseClaim) (w : WorkRef) (owner now : ℕ) (locks : Locks)
    (db : Db)
    → w.feed ≡ c.work.feed
    → is_owned c now (lease_of c.work.feed db.leases) ≡ true
    → claim n duration w owner now locks db ≡ ok (none, db)
unfolding claim claim_locked claim_row ensure_lease
claim_excluded n duration c w owner now locks db same owned =
    elim (Option-cases (lease_of c.work.feed db.leases)) [
      | inl missing ↦
          absurd (never (is_owned c now (lease_of c.work.feed db.leases)) (rw missing refl) owned)
      | inr (l, found) ↦
          let held : is_held now l ≡ true =
            owned_held c now l (subst (λ o. is_owned c now o ≡ true) found owned) in
          let row : lease_of w.feed db.leases ≡ some l = rw same found in
          elim (Bool-cases locks.advisory) [
            | inr busy ↦ rw busy refl
            | inl got ↦ elim (Bool-cases locks.row) [
              | inr busy ↦ rw (got, busy, row, ensure_lease) refl
              | inl both ↦ rw (got, both, row, ensure_lease, row) (rw (held, claim_row) refl)
            ]
          ]
    ]
  where
    never : (b : Bool) → b ≡ false → b ≡ true → ⊥
    never b f t = cc

-- Once another claim has taken a feed's lease, a claim with an older token is fenced off for good:
-- whatever transactions follow, it cannot renew the lease, nor release it, nor write.
pub takeover_fences :
    (n : Notices) (duration : ℕ) (c d : LeaseClaim) (owner now : ℕ) (locks : Locks) (db db' : Db)
    (ts : List Transaction) (later : ℕ) (body : WorkRow → WorkRow) (releases : Bool)
    → c.token < db.log.fresh
    → d.work.feed ≡ c.work.feed
    → 0 < duration
    → claim n duration d.work owner now locks db ≡ ok (some d, db')
    → (heartbeat duration c later (run n duration ts db') ≡ (false, run n duration ts db'))
      × (release c later (run n duration ts db') ≡ (false, run n duration ts db'))
      × (guarded_write body releases c later (run n duration ts db') ≡ err lease_lost)
takeover_fences n duration c d owner now locks db db' ts later body releases issued same positive
      e =
    let g = claim-Grants n duration d.work owner now locks d db db' e in
    let token : token_at d.work.feed db' ≡ some d.token =
      is_owned_token d now (lease_of d.work.feed db'.leases) (g.owned now (omega arith)) in
    run_fences n duration c db' ts later body releases (omega (arith, issued, g.new, g.used))
      (λ h. apart (g.new) (some_injective (sym token ∙ rw same h)))
  where
    apart : db.log.fresh ≤ d.token → d.token ≡ c.token → ⊥
    apart a b = omega (arith, a, b, issued)

    some_injective : {a b : ℕ} → some a ≡ some b → a ≡ b
    some_injective h = cc
