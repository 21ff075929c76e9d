-- ===== src/Lease/Whole.antt =====
-- The fields of a lease that are set and cleared together, and recovery of such leases.
use mathlib.Core.Path.{subst}
use ai_system_trading.Prelude.{
  ℕ, zero, suc, ◌≡◌, refl, sym, ap, ◌∙◌, Bool, true, false, ◌&&◌, Option, none, some, List, [], ◌∷◌,
  inl, inr, ◌==◌, ok, Bool-cases, Option-cases, arith, leb, is_some,
}
use ai_system_trading.Prelude.Rows.{All, select}
use ai_system_trading.Lease.Types.{
  FeedKey, WorkRef, MarketDataLease, Db, Notices, lease_of, put_lease, feed_equality,
}
use ai_system_trading.Lease.Recover.{target_of, cleared, interrupt_target, recover_work, recover}
use ai_system_trading.Lease.Expiry.{
  take as first, has_expired, ends_before, insert, by_end, recover_each,
}
use ai_system_trading.Lease.Tokens.{interrupt_target-leases}

-- The table's check that the six columns of a lease are all set or all null.
abbrev pub Whole : MarketDataLease → Type 0
Whole l =
    (is_some l.work_kind ≡ is_some l.lease_token)
    × (is_some l.work_id ≡ is_some l.lease_token)
    × (is_some l.lease_until ≡ is_some l.lease_token)
    × (is_some l.owner_id ≡ is_some l.lease_token)
    × (is_some l.heartbeat_at ≡ is_some l.lease_token)

abbrev pub IsWhole : Db → Type 0
IsWhole db = All Whole db.leases

pub All-put :
    (l : MarketDataLease) (ls : List MarketDataLease)
    → Whole l
    → All Whole ls
    → All Whole (put_lease l ls)
unfolding put_lease
All-put l [] h all = (h, tt)
All-put l (k ∷ ls) h all = elim (Bool-cases (k.feed == l.feed)) [
  | inl same ↦ rw same (h, all.1)
  | inr other ↦ rw other (all.0, All-put l ls h all.1)
]

pub All-lease_of :
    (f : FeedKey) (l : MarketDataLease) (ls : List MarketDataLease)
    → All Whole ls
    → lease_of f ls ≡ some l
    → Whole l
unfolding lease_of
All-lease_of f l [] all e = cc
All-lease_of f l (k ∷ ls) all e = elim (Bool-cases (k.feed == f)) [
  | inl hit ↦ subst Whole (head_row hit) all.0
  | inr miss ↦ All-lease_of f l ls all.1 (ground arith)
]
  where
    head_row : (k.feed == f) ≡ true → k ≡ l
    head_row hit = ground arith

-- A recovery that succeeds, and what it does to the lease table.
pub record Recovered (n : Notices) (now : ℕ) (l : MarketDataLease) (db : Db) : Type 0 where
  pub after : Db
  pub succeeds : recover n now l db ≡ ok after
  pub leases : after.leases ≡ put_lease (cleared l) db.leases

pub recover_named :
    (n : Notices) (now : ℕ) (l : MarketDataLease) (db : Db)
    → Whole l
    → is_some l.lease_token ≡ true
    → Recovered n now l db
unfolding recover
recover_named n now l db whole token = elim (Option-cases l.work_kind) [
  | inl missing ↦ absurd (not_both (is_some l.work_kind) (rw missing refl) (whole.0 ∙ token))
  | inr (k, kind) ↦ elim (Option-cases l.work_id) [
    | inl missing ↦ absurd (not_both (is_some l.work_id) (rw missing refl) (whole.1 ∙ token))
    | inr (i, id) ↦
        let w : WorkRef = record { feed = l.feed; kind = k; id = i } in
        let mid = interrupt_target n now w (target_of w db) db in
        let out : Db = record mid { leases = put_lease (cleared l) mid.leases } in
        record {
          after = out;
          succeeds = rw (kind, id, recover_work) refl;
          leases = ap (put_lease (cleared l)) (interrupt_target-leases n now w (target_of w db) db);
        }
  ]
]
  where
    not_both : (b : Bool) → b ≡ false → b ≡ true → ⊥
    not_both b f t = cc

pub Recovered-IsWhole :
    (n : Notices) (now : ℕ) (l : MarketDataLease) (db : Db) (r : Recovered n now l db)
    → IsWhole db
    → IsWhole r.after
Recovered-IsWhole n now l db r v =
    subst (All Whole) (sym r.leases)
      (All-put (cleared l) db.leases (refl, refl, refl, refl, refl) v)

-- Rows that a recovery can be given.
abbrev pub Named : MarketDataLease → Type 0
Named l = Whole l × (is_some l.lease_token ≡ true)

pub All-select :
    (now : ℕ) (free : MarketDataLease → Bool) (ls : List MarketDataLease)
    → All Whole ls
    → All Named (select (λ l. has_expired now l && free l) ls)
All-select now free [] all = tt
All-select now free (l ∷ ls) all = elim (Bool-cases (has_expired now l && free l)) [
  | inl hit ↦ rw hit (
    (all.0, named l.lease_until (free l) (is_some l.lease_token) all.0.2 hit),
    All-select now free ls all.1,
  )
  | inr miss ↦ rw miss (All-select now free ls all.1)
]
  where
    named :
        (u : Option ℕ) (f t : Bool)
        → is_some u ≡ t
        → ((elim u [ none ↦ false | some e ↦ leb e now ]) && f) ≡ true
        → t ≡ true
    named none f t same h = cc
    named (some e) f t same h = sym same

All-insert :
    (P : MarketDataLease → Type 0) (l : MarketDataLease) (ls : List MarketDataLease)
    → P l
    → All P ls
    → All P (insert l ls)
All-insert P l [] h all = (h, tt)
All-insert P l (k ∷ ks) h all = elim (Bool-cases (ends_before l.lease_until k.lease_until)) [
  | inl before ↦ rw before (h, all)
  | inr after ↦ rw after (all.0, All-insert P l ks h all.1)
]

pub All-by_end :
    (P : MarketDataLease → Type 0) (ls : List MarketDataLease) → All P ls → All P (by_end ls)
All-by_end P [] all = tt
All-by_end P (l ∷ ls) all = All-insert P l (by_end ls) all.0 (All-by_end P ls all.1)

pub All-first :
    (P : MarketDataLease → Type 0) (k : ℕ) (ls : List MarketDataLease)
    → All P ls
    → All P (first k ls)
All-first P zero ls all = tt
All-first P (suc k) [] all = tt
All-first P (suc k) (l ∷ ls) all = (all.0, All-first P k ls all.1)

-- The loop over named rows ends without an error.
pub record AllRecovered (n : Notices) (now : ℕ) (ls : List MarketDataLease) (db : Db) : Type 0 where
  pub after : Db
  pub succeeds : recover_each n now ls db ≡ ok after
  pub valid : IsWhole after

pub recover_each-Named :
    (n : Notices) (now : ℕ) (ls : List MarketDataLease) (db : Db)
    → All Named ls
    → IsWhole db
    → AllRecovered n now ls db
unfolding recover_each
recover_each-Named n now [] db all v = record { after = db; succeeds = refl; valid = v }
recover_each-Named n now (l ∷ ls) db all v =
    let head = recover_named n now l db all.0.0 all.0.1 in
    let rest = recover_each-Named n now ls head.after all.1 (Recovered-IsWhole n now l db head v) in
    record { after = rest.after; succeeds = rw (head.succeeds) rest.succeeds; valid = rest.valid }
