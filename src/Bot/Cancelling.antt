-- ===== src/Bot/Cancelling.antt =====
-- The cancellations of open orders that a command makes.
use Prim.Native.String.{String}
use mathlib.Core.List.{Memᴰ}
use ai_system_trading.Prelude.{
  ℕ, ◌≡◌, refl, sym, ap, ◌∙◌, true, false, List, [], ◌∷◌, arith, Result, ok, err, ◌>>=◌, inl, inr,
  Bool-cases, nat_equality, nat_beq, nat_beq_iff,
}
use ai_system_trading.Prelude.Rows.{All, select, any}
use ai_system_trading.Prelude.Table.{UniqueIds, UniqueIds-save, All-transfer}
use ai_system_trading.Bot.Types.{
  TradingBot, TradeOrder, Db, cancelled, is_cancellable, LifecycleError,
}
use ai_system_trading.Bot.Orders.{
  mark_cancelled, cancel_order, cancel_each, open_order, cancel_open_orders,
}

-- What a list of cancellations leaves as it was.
pub record Kept (db db' : Db) : Type 0 where
  pub bots : db'.bots ≡ db.bots
  pub runs : db'.runs ≡ db.runs
  pub log : db'.log ≡ db.log
  pub positions : db'.positions ≡ db.positions

-- The open orders of the account are all among those still to be cancelled.
record Pending (account : ℕ) (os : List TradeOrder) (db : Db) : Type 0 where
  unique : UniqueIds (λ o. o.id) db.orders
  listed : All (λ x. open_order account x ≡ true → any (λ o. nat_beq o.id x.id) os ≡ true) db.orders

-- What the cancellations come to: no error, no open order of the account left.
abbrev pub Cancelled : ℕ → Db → Result LifecycleError (List TradeOrder × Db) → Type 0
Cancelled account db (err e) = ⊥
Cancelled account db (ok (os, db')) =
    Kept db db'
    × UniqueIds (λ o. o.id) db'.orders
    × All (λ x. open_order account x ≡ false) db'.orders

Cancelled-trans :
    (account : ℕ) (o : TradeOrder) (db db' : Db) (r : Result LifecycleError (List TradeOrder × Db))
    → Kept db db'
    → Cancelled account db' r
    → Cancelled account db (r >>= λ x. ok (o ∷ x.0, x.1))
Cancelled-trans account o db db' (ok (os, db'')) k (h, u, none_open) = (
  record {
    bots = h.bots ∙ k.bots;
    runs = h.runs ∙ k.runs;
    log = h.log ∙ k.log;
    positions = h.positions ∙ k.positions;
  },
  u,
  none_open,
)
Cancelled-trans account o db db' (err e) k h = absurd h

mark_cancelled-Kept :
    (o : TradeOrder) (reason : String) (now : ℕ) (db : Db)
    → Kept db (mark_cancelled o reason now db).1
unfolding mark_cancelled
mark_cancelled-Kept o reason now db = record {
  bots = refl;
  runs = refl;
  log = refl;
  positions = refl;
}

mark_cancelled-Pending :
    (account : ℕ) (o : TradeOrder) (os : List TradeOrder) (reason : String) (now : ℕ) (db : Db)
    → Pending account (o ∷ os) db
    → Pending account os (mark_cancelled o reason now db).1
unfolding mark_cancelled
mark_cancelled-Pending account o os reason now db p =
    let o' : TradeOrder = record o { status = cancelled; updated_at = now } in
    record {
      unique = UniqueIds-save (λ x. x.id) o' db.orders p.unique;
      listed =
          All-transfer (λ x. x.id)
            (λ x. open_order account x ≡ true → any (λ k. nat_beq k.id x.id) (o ∷ os) ≡ true)
            (λ x. open_order account x ≡ true → any (λ k. nat_beq k.id x.id) os ≡ true) o' db.orders
            p.unique p.listed (λ h. absurd (ground arith))
            (λ x apart listed still. ground (arith, listed still, nat_beq_iff o.id x.id));
    }

All-closed :
    (account : ℕ) (xs : List TradeOrder)
    → All (λ x. open_order account x ≡ true → false ≡ true) xs
    → All (λ x. open_order account x ≡ false) xs
All-closed account [] h = tt
All-closed account (x ∷ xs) h = (ground (arith, h.0), All-closed account xs h.1)

cancel_each-Cancelled :
    (account : ℕ) (os : List TradeOrder) (reason : String) (now : ℕ) (db : Db)
    → All (λ o. is_cancellable o.status ≡ true) os
    → Pending account os db
    → Cancelled account db (cancel_each os reason now db)
unfolding cancel_each cancel_order
cancel_each-Cancelled account [] reason now db h p = (
  record { bots = refl; runs = refl; log = refl; positions = refl },
  p.unique,
  All-closed account db.orders p.listed,
)
cancel_each-Cancelled account (o ∷ os) reason now db h p =
    let (o', db') = mark_cancelled o reason now db in
    rw h.0 (
      Cancelled-trans account o' db db' (cancel_each os reason now db')
        (mark_cancelled-Kept o reason now db)
        (cancel_each-Cancelled account os reason now db' h.1
          (mark_cancelled-Pending account o os reason now db p)))

select-cancellable :
    (account : ℕ) (os : List TradeOrder)
    → All (λ o. is_cancellable o.status ≡ true) (select (open_order account) os)
select-cancellable account [] = tt
select-cancellable account (o ∷ os) = elim (Bool-cases (open_order account o)) [
  | inl hit ↦ rw hit (ground arith, select-cancellable account os)
  | inr miss ↦ rw miss (select-cancellable account os)
]

select-listed :
    (account : ℕ) (x : TradeOrder) (xs : List TradeOrder)
    → Memᴰ x xs
    → open_order account x ≡ true
    → any (λ o. nat_beq o.id x.id) (select (open_order account) xs) ≡ true
select-listed account x [] m h = elim m [ ]
select-listed account x (y ∷ xs) (Memᴰ.head e) h =
    let same : open_order account y ≡ true = ap (open_order account) (sym e) ∙ h in
    rw same (ground (arith, nat_beq_iff y.id x.id, ap (λ (o : TradeOrder). o.id) e))
select-listed account x (y ∷ xs) (Memᴰ.tail m) h = ground (arith, select-listed account x xs m h)

pub All-Mem : {A : Type 0} {P : A → Type 0} (xs : List A) → ((x : A) → Memᴰ x xs → P x) → All P xs
All-Mem [] f = tt
All-Mem (x ∷ xs) f = (f x (Memᴰ.head refl), All-Mem xs (λ y m. f y (Memᴰ.tail m)))

-- The query of `_cancel_open_orders` and the guard of `cancel_order` agree, so no cancellation
-- raises; afterwards no order of the account is in a cancellable state; and no bot, run,
-- position or event is touched.
pub cancel_open_orders-Cancelled :
    (b : TradingBot) (reason : String) (now : ℕ) (db : Db)
    → UniqueIds (λ o. o.id) db.orders
    → Cancelled b.account_id db (cancel_open_orders b reason now db)
unfolding cancel_open_orders
cancel_open_orders-Cancelled b reason now db u =
    cancel_each-Cancelled b.account_id (select (open_order b.account_id) db.orders) reason now db
      (select-cancellable b.account_id db.orders)
      (record {
        unique = u;
        listed = All-Mem db.orders (λ x m h. select-listed b.account_id x db.orders m h);
      })
