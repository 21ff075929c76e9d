-- ===== src/Lease/Types.antt =====
-- The keys, rows and tables of leases.py and of app/market_data/infrastructure/models.py. Times
-- are in microseconds.
use Prim.Native.String.{String}
use ai_system_trading.Prelude.{
  ℕ, ◌≡◌, ◌↔◌, ◌&&◌, Bool, true, false, Option, none, some, List, [], ◌∷◌, arith, Equality, ◌==◌,
  nat_equality, string_equality, beq_refl, beq_false, refl, sym, ◌∙◌, if◌then◌else◌, inl, inr,
  Bool-cases,
}
use ai_system_trading.Events.{Payload, EventLog}

pub record FeedKey : Type 0 where
  pub workspace_id : ℕ
  pub instrument_id : ℕ
  pub timeframe : String

pub data WorkKind : Type 0 where
  backfill polling : WorkKind

abbrev pub kind_beq : WorkKind → WorkKind → Bool
kind_beq backfill backfill = true
kind_beq polling polling = true
kind_beq _ _ = false

-- The constructor's check of the kind always holds: `WorkKind` has these two.
pub record WorkRef : Type 0 where
  pub feed : FeedKey
  pub kind : WorkKind
  pub id : ℕ

pub record LeaseClaim : Type 0 where
  pub work : WorkRef
  pub owner_id : ℕ
  pub token : ℕ
  pub next_fetch_at : Option ℕ

pub record MarketDataLease : Type 0 where
  pub feed : FeedKey
  pub owner_id : Option ℕ
  pub lease_token : Option ℕ
  pub lease_until : Option ℕ
  pub heartbeat_at : Option ℕ
  pub work_kind : Option WorkKind
  pub work_id : Option ℕ

pub data JobStatus : Type 0 where
  queued running validating succeeded failed cancelled : JobStatus

-- The fields that both kinds of target have (`WorkFields`).
pub record WorkFields : Type 0 where
  pub id : ℕ
  pub feed : FeedKey
  pub next_fetch_at : Option ℕ
  pub next_run_at : ℕ
  pub consecutive_failures : ℕ

pub record WorkerBackfill : Type 0 where
  pub work : WorkFields
  pub open work use *
  pub status : JobStatus
  pub attempts : ℕ
  pub error_code : Option String
  pub started_at : Option ℕ
  pub finished_at : Option ℕ

pub record WorkerSubscription : Type 0 where
  pub work : WorkFields
  pub open work use *
  pub enabled : Bool
  pub blocked_reason : Option String
  pub last_error_code : Option String

pub data WorkRow : Type 0 where
  job : WorkerBackfill → WorkRow
  subscription : WorkerSubscription → WorkRow

abbrev pub fields : WorkRow → WorkFields
fields (job b) = b.work
fields (subscription s) = s.work

pub record AuditRow : Type 0 where
  pub work : WorkRef
  pub action : String
  pub before_data : Payload
  pub after_data : Payload
  pub correlation_id : ℕ

pub record Db : Type 0 where
  pub leases : List MarketDataLease
  pub backfills : List WorkerBackfill
  pub subscriptions : List WorkerSubscription
  pub audit : List AuditRow
  pub log : EventLog

-- What the stop notice reads besides the tables: which system events, by id, were recorded within
-- the quiet period (a matter of the database's clock), an instrument's symbol, and the text of a
-- uuid.
pub record Notices : Type 0 where
  pub recent : ℕ → Bool
  pub symbol : ℕ → Option String
  pub uuid_text : ℕ → String

pub data RuntimeError : Type 0 where
  invalid_stored_lease_target : RuntimeError

abbrev pub feed_beq : FeedKey → FeedKey → Bool
feed_beq a b =
    a.workspace_id == b.workspace_id
    && (a.instrument_id == b.instrument_id && a.timeframe == b.timeframe)

and_parts : (a b : Bool) → (a && b) ≡ true → (a ≡ true) × (b ≡ true)
and_parts a b h = ground arith

pub feed_beq_iff : (a b : FeedKey) → (feed_beq a b ≡ true) ↔ (a ≡ b)
feed_beq_iff a b = (
  (λ h.
      let (w, rest) = and_parts (a.workspace_id == b.workspace_id) _ h in
      let (i, t) = and_parts (a.instrument_id == b.instrument_id) _ rest in
      let w' : a.workspace_id ≡ b.workspace_id = (nat_equality.beq_iff _ _).0 w in
      let i' : a.instrument_id ≡ b.instrument_id = (nat_equality.beq_iff _ _).0 i in
      let t' : a.timeframe ≡ b.timeframe = (string_equality.beq_iff _ _).0 t in
      λ j. record { workspace_id = w' j; instrument_id = i' j; timeframe = t' j }),
  (λ e. rw e (rw (beq_refl b.workspace_id, beq_refl b.instrument_id, beq_refl b.timeframe))),
)

instance abbrev pub feed_equality : Equality FeedKey
feed_equality = record { beq = feed_beq; beq_iff = feed_beq_iff }

-- `db.get(MarketDataLease, identity)`
unfoldable pub lease_of : FeedKey → List MarketDataLease → Option MarketDataLease
lease_of f [] = none
lease_of f (l ∷ ls) = if l.feed == f then some l else lease_of f ls

-- The row of the object's key now holds the object; a new key's row is added.
unfoldable pub put_lease : MarketDataLease → List MarketDataLease → List MarketDataLease
put_lease l [] = l ∷ []
put_lease l (k ∷ ls) = if k.feed == l.feed then l ∷ ls else k ∷ put_lease l ls

pub lease_of-put_lease :
    (f : FeedKey) (l : MarketDataLease) (ls : List MarketDataLease)
    → lease_of f (put_lease l ls) ≡ (if l.feed == f then some l else lease_of f ls)
unfolding lease_of put_lease
lease_of-put_lease f l [] = refl
lease_of-put_lease f l (k ∷ ls) = elim (Bool-cases (k.feed == l.feed)) [
  | inl same ↦
      let e : k.feed ≡ l.feed = (feed_beq_iff k.feed l.feed).0 same in
      rw same (elim (Bool-cases (l.feed == f)) [ inl hit ↦ rw hit | inr miss ↦ rw (miss, e, miss) ])
  | inr differ ↦ rw differ (elim (Bool-cases (k.feed == f)) [
    | inl hit ↦
        let kf : k.feed ≡ f = (feed_beq_iff k.feed f).0 hit in
        let apart : feed_beq l.feed f ≡ false =
          beq_false l.feed f (λ e. cc (differ, (feed_beq_iff k.feed l.feed).1 (kf ∙ sym e))) in
        rw (hit, apart)
    | inr miss ↦ rw (miss) (lease_of-put_lease f l ls)
  ])
]
