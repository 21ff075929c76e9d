-- ===== src/Lease/Tokens.antt =====
-- How a transaction changes the tokens of the lease table.
use Prim.Native.String.{String}
use ai_system_trading.Prelude.{
  ℕ, ◌≤◌, ◌<◌, ◌≡◌, refl, sym, ap, ◌∙◌, ok_injective, Option, none, some, ◌⊎◌, inl, inr, ◌==◌, ok,
  Bool-cases, arith, leb,
}
use ai_system_trading.Events.{EventLog, publish_system_event}
use ai_system_trading.Lease.Types.{
  FeedKey, WorkKind, WorkRef, WorkRow, job, subscription, MarketDataLease, Db, Notices, lease_of,
  put_lease, lease_of-put_lease, feed_equality, feed_beq_iff, fields,
}
use ai_system_trading.Lease.Notice.{already_told, announce_stopped}
use ai_system_trading.Lease.Recover.{
  target_of, save_target, is_active, cleared, notice, interrupt, interrupt_target, recover_work,
  recover,
}

abbrev pub token_in : Option MarketDataLease → Option ℕ
token_in none = none
token_in (some l) = l.lease_token

abbrev pub token_at : FeedKey → Db → Option ℕ
token_at f db = token_in (lease_of f db.leases)

-- Identifiers are only taken, and a token that a feed has afterwards it had before, or it is an
-- identifier taken since.
pub record Grows (db db' : Db) : Type 0 where
  pub later : db.log.fresh ≤ db'.log.fresh
  pub tokens :
      (f : FeedKey) (k : ℕ)
      → token_at f db' ≡ some k
      → (token_at f db ≡ some k) ⊎ ((db.log.fresh ≤ k) × (k < db'.log.fresh))

pub Grows-refl : (db : Db) → Grows db db
Grows-refl db = record { later = omega arith; tokens = λ f k h. inl h }

pub Grows-trans : {a b c : Db} → Grows a b → Grows b c → Grows a c
Grows-trans {a} {b} {c} g h = record {
  later = omega (arith, g.later, h.later);
  tokens = λ f k e. elim (h.tokens f k e) [
    | inl before ↦ elim (g.tokens f k before) [
      | inl old ↦ inl old
      | inr taken ↦ inr (taken.0, omega (arith, taken.1, h.later))
    ]
    | inr taken ↦ inr (omega (arith, taken.0, g.later), taken.1)
  ];
}

-- A transaction that leaves the lease table alone.
pub Grows-frame :
    (db db' : Db) → db'.leases ≡ db.leases → db.log.fresh ≤ db'.log.fresh → Grows db db'
Grows-frame db db' same later = record { later = later; tokens = λ f k e. inl (rw (← same) e) }

-- A row is put in the place of its feed's, and its token comes from that row or is new.
pub Grows-put :
    (l : MarketDataLease) (db db' : Db)
    → db'.leases ≡ put_lease l db.leases
    → db.log.fresh ≤ db'.log.fresh
    → ((k : ℕ)
        → l.lease_token ≡ some k
        → (token_at l.feed db ≡ some k) ⊎ ((db.log.fresh ≤ k) × (k < db'.log.fresh)))
    → Grows db db'
Grows-put l db db' same later new = record { later = later; tokens = token }
  where
    token :
        (f : FeedKey) (k : ℕ)
        → token_at f db' ≡ some k
        → (token_at f db ≡ some k) ⊎ ((db.log.fresh ≤ k) × (k < db'.log.fresh))
    token f k e = elim (Bool-cases (l.feed == f)) [
      | inl hit ↦
          let at : l.feed ≡ f = (feed_beq_iff l.feed f).0 hit in
          let own : l.lease_token ≡ some k =
            sym (rw (same, lease_of-put_lease f l db.leases, hit) refl) ∙ e in
          rw (← at) (new k own)
      | inr miss ↦ inl (sym (rw (same, lease_of-put_lease f l db.leases, miss) refl) ∙ e)
    ]

pub Grows-cleared :
    (l : MarketDataLease) (db db' : Db)
    → db'.leases ≡ put_lease (cleared l) db.leases
    → db.log.fresh ≤ db'.log.fresh
    → Grows db db'
Grows-cleared l db db' same later = Grows-put (cleared l) db db' same later (λ k e. cc)

pub save_target-leases : (t : WorkRow) (db : Db) → (save_target t db).leases ≡ db.leases
save_target-leases (job b) db = refl
save_target-leases (subscription s) db = refl

pub save_target-log : (t : WorkRow) (db : Db) → (save_target t db).log ≡ db.log
save_target-log (job b) db = refl
save_target-log (subscription s) db = refl

announce_later :
    (n : Notices) (t : WorkRow) (code : String) (log : EventLog)
    → log.fresh ≤ (announce_stopped n t code log).fresh
unfolding announce_stopped publish_system_event
announce_later n t code log = elim (Bool-cases (already_told n (fields t) code log)) [
  | inl told ↦ rw told (omega arith)
  | inr new ↦ rw new (omega arith)
]

pub notice-leases : (n : Notices) (t : WorkRow) (db : Db) → (notice n t db).leases ≡ db.leases
unfolding notice
notice-leases n t db = elim (Bool-cases (leb 3 (fields t).consecutive_failures)) [
  | inl stop ↦ rw stop refl
  | inr go ↦ rw go refl
]

notice_later : (n : Notices) (t : WorkRow) (db : Db) → db.log.fresh ≤ (notice n t db).log.fresh
unfolding notice
notice_later n t db = elim (Bool-cases (leb 3 (fields t).consecutive_failures)) [
  | inl stop ↦ rw stop (announce_later n t "worker_interrupted" db.log)
  | inr go ↦ rw go (omega arith)
]

pub interrupt_target-leases :
    (n : Notices) (now : ℕ) (w : WorkRef) (t : Option WorkRow) (db : Db)
    → (interrupt_target n now w t db).leases ≡ db.leases
unfolding interrupt_target
interrupt_target-leases n now w none db = refl
interrupt_target-leases n now w (some t) db = elim (Bool-cases (is_active t)) [
  | inl runs ↦ rw runs (
      notice-leases n (interrupt now w t) (save_target (interrupt now w t) db)
      ∙ save_target-leases (interrupt now w t) db)
  | inr done ↦ rw done refl
]

interrupt_target_later :
    (n : Notices) (now : ℕ) (w : WorkRef) (t : Option WorkRow) (db : Db)
    → db.log.fresh ≤ (interrupt_target n now w t db).log.fresh
unfolding interrupt_target
interrupt_target_later n now w none db = omega arith
interrupt_target_later n now w (some t) db = elim (Bool-cases (is_active t)) [
  | inl runs ↦ rw runs (
      omega (
        arith,
        notice_later n (interrupt now w t) (save_target (interrupt now w t) db),
        ap (λ g. g.fresh) (save_target-log (interrupt now w t) db),
      ))
  | inr done ↦ rw done (omega arith)
]

recover_work-Grows :
    (n : Notices) (now : ℕ) (l : MarketDataLease) (k : Option WorkKind) (i : Option ℕ) (db db' : Db)
    → recover_work n now l k i db ≡ ok db'
    → Grows db db'
unfolding recover_work
recover_work-Grows n now l none i db db' e = cc
recover_work-Grows n now l (some k) none db db' e = cc
recover_work-Grows n now l (some k) (some i) db db' e =
    let w : WorkRef = record { feed = l.feed; kind = k; id = i } in
    let mid = interrupt_target n now w (target_of w db) db in
    let out : Db = record mid { leases = put_lease (cleared l) mid.leases } in
    rw (← ok_injective out db' e) (
      Grows-trans
        (Grows-frame db mid (interrupt_target-leases n now w (target_of w db) db)
          (interrupt_target_later n now w (target_of w db) db))
        (Grows-cleared l mid out refl (omega arith)))

pub recover-Grows :
    (n : Notices) (now : ℕ) (l : MarketDataLease) (db db' : Db)
    → recover n now l db ≡ ok db'
    → Grows db db'
unfolding recover
recover-Grows n now l db db' e = recover_work-Grows n now l l.work_kind l.work_id db db' e
