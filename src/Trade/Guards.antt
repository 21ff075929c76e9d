-- ===== src/Trade/Guards.antt =====
-- What `place_order` has found out before it writes anything.
use ai_system_trading.Prelude.{
  ℕ, ◌≡◌, true, not, ◌&&◌, ◌||◌, Option, none, some, Result, ok, ◌==◌, nat_equality, >>=-eq-ok,
  >>-eq-ok, require-ok,
}
use ai_system_trading.Prelude.Rows.{find}
use ai_system_trading.Money.Decimal.{positive}
use ai_system_trading.Halt.{Store}
use ai_system_trading.Trade.Types.{
  ExchangeCode, Instrument, TradingAccount, TradeOrder, Db, PlaceOrderCommand,
}
use ai_system_trading.Trade.Position.{open_position}
use ai_system_trading.Trade.Place.{
  found_or, exchange_code_for_account, check_stop_fill, is_closing_or_reducing,
  entry_blocked_by_halt, execute, place_order,
}

-- The account, the instrument and the exchange that an order is executed with.
pub record Cleared (c : PlaceOrderCommand) (now : ℕ) (halts : Store) (db : Db)
    (end : TradeOrder × Db) : Type 0 where
  pub account : TradingAccount
  pub instrument : Instrument
  pub exchange : ExchangeCode
  pub quantity : positive c.quantity ≡ true
  pub own_account :
      find (λ x. x.id == c.account_id && x.workspace_id == c.workspace_id) db.accounts
      ≡ some account
  pub own_instrument : find (λ i. i.id == c.instrument_id) db.instruments ≡ some instrument
  pub own_exchange : exchange_code_for_account account db ≡ ok exchange
  pub stop_fill : check_stop_fill c (open_position account.id instrument.id db) ≡ ok tt
  pub allowed :
      (is_closing_or_reducing c.side (open_position account.id instrument.id db)
        || not (entry_blocked_by_halt c.workspace_id account.id c.bot_id halts))
      ≡ true
  pub executed : execute c account instrument exchange now db ≡ ok end

found_or-ok :
    {E A : Type 0} (e : E) (o : Option A) (a : A)
    → ◌≡◌ {A = Result E A} (found_or e o) (ok a)
    → o ≡ some a
found_or-ok e none a h = cc
found_or-ok e (some b) a h = cc

-- An order that is placed has passed every guard.
pub place_order-Cleared :
    (c : PlaceOrderCommand) (now : ℕ) (halts : Store) (db : Db) (end : TradeOrder × Db)
    → place_order c now halts db ≡ ok end
    → Cleared c now halts db end
unfolding place_order
place_order-Cleared c now halts db end h0 =
    let (q, h1) = >>-eq-ok _ _ _ h0 in
    let (p, h2) = >>-eq-ok _ _ _ h1 in
    let (a, own, h3) = >>=-eq-ok _ _ _ h2 in
    let (i, owni, h4) = >>=-eq-ok _ _ _ h3 in
    let (x, ownx, h5) = >>=-eq-ok _ _ _ h4 in
    let (intent, h6) = >>-eq-ok _ _ _ h5 in
    let (stop, h7) = >>-eq-ok _ _ _ h6 in
    let (may, h8) = >>-eq-ok _ _ _ h7 in
    record {
      account = a;
      instrument = i;
      exchange = x;
      quantity = require-ok _ _ q;
      own_account = found_or-ok _ _ _ own;
      own_instrument = found_or-ok _ _ _ owni;
      own_exchange = ownx;
      stop_fill = stop;
      allowed = require-ok _ _ may;
      executed = h8;
    }
