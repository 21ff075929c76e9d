-- ===== src/Bot/Rows.antt =====
-- Rows of bots found by their identifiers, and what `stop_bot` does to the table of bots.
use Prim.Native.String.{String}
use ai_system_trading.Prelude.{
  ℕ, ◌≡◌, ◌≢◌, refl, ap, Bool, Option, some, List, [], ◌∷◌, inl, inr, arith, Bool-cases,
  Option-cases, nat_beq, nat_beq_iff, Result, ok, err, ◌>>=◌,
}
use ai_system_trading.Prelude.Rows.{find, select, All}
use ai_system_trading.Prelude.Table.{save, UniqueIds}
use ai_system_trading.Bot.Types.{
  DesiredState, ActualState, TradingBot, BotRun, TradeOrder, Db, is_live, LifecycleError,
}
use ai_system_trading.Bot.Orders.{cancel_open_orders}
use ai_system_trading.Bot.Commands.{
  run_of, with_state, mark_stopped, stop_live, stop_from, stop_bot,
}
use ai_system_trading.Bot.Cancelling.{Cancelled, cancel_open_orders-Cancelled}

abbrev pub bot_id : TradingBot → ℕ
bot_id b = b.id

pub find-save_apart :
    (c : ℕ) (a : TradingBot) (xs : List TradingBot)
    → c ≢ a.id
    → find (λ x. nat_beq x.id c) (save bot_id a xs) ≡ find (λ x. nat_beq x.id c) xs
unfolding save
find-save_apart c a [] apart = refl
find-save_apart c a (x ∷ xs) apart = ground (
  arith,
  nat_beq_iff x.id a.id,
  nat_beq_iff a.id c,
  nat_beq_iff x.id c,
  find-save_apart c a xs apart,
)

-- In a table with distinct identifiers each row is the one that its identifier finds.
pub All-found :
    (xs : List TradingBot)
    → UniqueIds bot_id xs
    → All (λ x. find (λ y. nat_beq y.id x.id) xs ≡ some x) xs
All-found [] u = tt
All-found (x ∷ xs) u = (rw ((nat_beq_iff x.id x.id).1 refl) refl, skip xs u.0 (All-found xs u.1))
  where
    skip :
        (ys : List TradingBot)
        → All (λ y. y.id ≢ x.id) ys
        → All (λ y. find (λ z. nat_beq z.id y.id) xs ≡ some y) ys
        → All (λ y. find (λ z. nat_beq z.id y.id) (x ∷ xs) ≡ some y) ys
    skip [] apart all = tt
    skip (y ∷ ys) apart all =
        (ground (arith, nat_beq_iff x.id y.id, apart.0, all.0), skip ys apart.1 all.1)

pub All-select :
    (P : TradingBot → Type 0) (p : TradingBot → Bool) (xs : List TradingBot)
    → All P xs
    → All P (select p xs)
All-select P p [] all = tt
All-select P p (x ∷ xs) all = elim (Bool-cases (p x)) [
  | inl hit ↦ rw hit (all.0, All-select P p xs all.1)
  | inr miss ↦ rw miss (All-select P p xs all.1)
]

pub UniqueIds-select :
    (p : TradingBot → Bool) (xs : List TradingBot)
    → UniqueIds bot_id xs
    → UniqueIds bot_id (select p xs)
UniqueIds-select p [] u = tt
UniqueIds-select p (x ∷ xs) u = elim (Bool-cases (p x)) [
  | inl hit ↦ rw hit (All-select (λ y. y.id ≢ x.id) p xs u.0, UniqueIds-select p xs u.1)
  | inr miss ↦ rw miss (UniqueIds-select p xs u.1)
]

-- If a command returns, only its bot's row has changed in the table of bots.
abbrev pub Saves : ℕ → TradingBot → Db → Result LifecycleError (BotRun × Db) → Type 0
Saves now b db (err e) = Unit
Saves now b db (ok (r, db')) =
    db'.bots ≡ save bot_id (with_state DesiredState.stopped ActualState.stopped now b) db.bots

stop_found-Saves :
    (reason : Option String) (now : ℕ) (b : TradingBot) (r : BotRun) (db : Db)
    (c : Result LifecycleError (List TradeOrder × Db))
    → Cancelled b.account_id db c
    → Saves now b db (c >>= λ x. ok (mark_stopped reason now b r x.0 x.1))
unfolding mark_stopped
stop_found-Saves reason now b r db (err e) h = absurd h
stop_found-Saves reason now b r db (ok (os, db')) (kept, orders, closed) =
    ap (save bot_id (with_state DesiredState.stopped ActualState.stopped now b)) kept.bots

stop_live-Saves :
    (reason : Option String) (now : ℕ) (b : TradingBot) (db : Db)
    → UniqueIds (λ o. o.id) db.orders
    → Saves now b db (stop_live reason now b db)
unfolding stop_live
stop_live-Saves reason now b db u = elim (Option-cases (find (run_of b.id is_live) db.runs)) [
  | inl absent ↦ rw absent tt
  | inr (r, found) ↦ rw found (
      stop_found-Saves reason now b r db (cancel_open_orders b "bot_stopped" now db)
        (cancel_open_orders-Cancelled b "bot_stopped" now db u))
]

stop_from-Saves :
    (d : DesiredState) (reason : Option String) (now : ℕ) (b : TradingBot) (db : Db)
    → UniqueIds (λ o. o.id) db.orders
    → Saves now b db (stop_from d reason now b db)
unfolding stop_from
stop_from-Saves DesiredState.stopped reason now b db u = tt
stop_from-Saves DesiredState.running reason now b db u = stop_live-Saves reason now b db u
stop_from-Saves DesiredState.paused reason now b db u = stop_live-Saves reason now b db u

pub stop_bot-Saves :
    (reason : Option String) (now : ℕ) (b : TradingBot) (db : Db)
    → UniqueIds (λ o. o.id) db.orders
    → Saves now b db (stop_bot reason now b db)
unfolding stop_bot
stop_bot-Saves reason now b db u = stop_from-Saves b.desired_state reason now b db u
