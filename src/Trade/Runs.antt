-- ===== src/Trade/Runs.antt =====
-- The commands of order_flow.py one after the other, those that fail rolled back.
use ai_system_trading.Prelude.{
  ℕ, ◌+◌, ◌≡◌, refl, sym, true, some, List, [], ◌∷◌, arith, Result, ok, err, ◌==◌, ◌&&◌,
  nat_equality, require, Returns, >>=-Returns, Returns-ok,
}
use mathlib.Core.Path.{subst}
use ai_system_trading.Prelude.Rows.{find}
use ai_system_trading.Money.Decimal.{positive}
use ai_system_trading.Halt.{Store}
use ai_system_trading.Trade.Types.{
  ExchangeCode, is_oanda, TradingAccount, TradeOrder, OrderIntent, Db, OrderIntentCommand,
  PlaceOrderCommand, OrderFlowError, invalid_input, signal_not_found, risk_decision_not_found,
  risk_decision_signal_mismatch,
}
use ai_system_trading.Trade.Place.{
  found_or, validate_order_type_price, exchange_code_for_account, create_order_intent, execute,
  place_order,
}
use ai_system_trading.Trade.Holdings.{later-Holdings}
use ai_system_trading.Trade.Executed.{Placed, execute-Placed}
use ai_system_trading.Trade.Guards.{place_order-Cleared}
use ai_system_trading.Trade.Halted.{Cleared-account, Cleared-instrument}
use ai_system_trading.Trade.Books.{
  OnOanda, Balanced, Placed-Balanced, used_later, same-OnOanda, Sound-later,
}

shorts_on :
    (x : ExchangeCode) (db : Db) (account_id workspace_id : ℕ) (row : TradingAccount)
    → find (λ a. a.id == account_id && a.workspace_id == workspace_id) db.accounts ≡ some row
    → exchange_code_for_account row db ≡ ok x
    → is_oanda x ≡ true
    → OnOanda db account_id
shorts_on ExchangeCode.oanda db account_id workspace_id row own exchange allowed = record {
  workspace_id = workspace_id;
  row = row;
  own = own;
  exchange = exchange;
}
shorts_on ExchangeCode.binance db account_id workspace_id row own exchange allowed = cc
shorts_on (ExchangeCode.other code) db account_id workspace_id row own exchange allowed = cc

-- A successful `place_order` on balanced tables: the order is filled for its whole quantity, the
-- history says how it got there, and the positions stay sound. One fill is added, at a positive
-- price, which is the stop's or the latest close made worse by the expected slippage, with the
-- exchange's fee. One ledger transaction of the order's account is added for it, with these entries
-- of that account: the cash paid by a purchase or received by a sale, the fee if it is positive,
-- and, unless it is zero, the gain on the part of the open position that the fill closes.
pub place_order-Placed :
    (c : PlaceOrderCommand) (now : ℕ) (halts : Store) (db : Db) (end : TradeOrder × Db)
    → Balanced db
    → place_order c now halts db ≡ ok end
    → Placed (OnOanda db) c now db end
place_order-Placed c now halts db end v h =
    let k = place_order-Cleared c now halts db end h in
    let same = Cleared-account c now halts db end k in
    Returns-ok (Placed (OnOanda db) c now db) (execute c k.account k.instrument k.exchange now db)
      end
      (execute-Placed (OnOanda db) c k.account k.instrument k.exchange now db
        (record {
          own_account = k.own_account;
          same_account = same;
          own_instrument = k.own_instrument;
          same_instrument = Cleared-instrument c now halts db end k;
          own_exchange = k.own_exchange;
        })
        (λ o. subst (OnOanda db) (sym same) (
          shorts_on k.exchange db c.account_id c.workspace_id k.account k.own_account k.own_exchange
            o))
        v.used v.holdings)
      k.executed

-- A command with its clock, and the halts that it finds.
pub data Command : Type 0 where
  intend : OrderIntentCommand → Command
  place : PlaceOrderCommand → (now : ℕ) → Store → Command

abbrev pub committed : {A : Type 0} → Db → Result OrderFlowError (A × Db) → Db
committed db (ok r) = r.1
committed db (err e) = db

abbrev pub perform : Command → Db → Db
perform (intend c) db = committed db (create_order_intent c db)
perform (place c now halts) db = committed db (place_order c now halts db)

unfoldable pub run : List Command → Db → Db
run [] db = db
run (c ∷ cs) db = run cs (perform c db)

-- Only an intent is added.
record Intended (db : Db) (r : OrderIntent × Db) : Type 0 where
  intents : List OrderIntent
  same : r.1 ≡ record db { intents = intents; fresh = db.fresh + 1 }

create_order_intent-Intended :
    (c : OrderIntentCommand) (db : Db) → Returns (Intended db) (create_order_intent c db)
unfolding create_order_intent
create_order_intent-Intended c db =
    >>=-Returns (Intended db) (require (positive c.requested_quantity) invalid_input) _ λ _ _.
      >>=-Returns (Intended db) (validate_order_type_price c.order_type c.limit_price) _ λ _ _.
        >>=-Returns (Intended db)
          (found_or signal_not_found (find (λ s. s.id == c.signal_id) db.signals)) _
          λ signal _.
            >>=-Returns (Intended db)
              (found_or risk_decision_not_found
                (find (λ d. d.id == c.risk_decision_id) db.decisions))
              _
              λ decision _.
                >>=-Returns (Intended db)
                  (require (decision.signal_id == c.signal_id) risk_decision_signal_mismatch) _
                  λ _ _. record { intents = _; same = refl }

Intended-Balanced :
    (db : Db) (r : Result OrderFlowError (OrderIntent × Db))
    → Balanced db
    → Returns (Intended db) r
    → Balanced (committed db r)
Intended-Balanced db (err e) v i = v
Intended-Balanced db (ok r) v i = subst Balanced (sym i.same) (record {
  used = used_later db.fresh (db.fresh + 1) db.orders (omega arith) v.used;
  complete = v.complete;
  one_fill = v.one_fill;
  in_full = v.in_full;
  one_transaction = v.one_transaction;
  holdings = record {
    unique = v.holdings.unique;
    used =
        (later-Holdings (OnOanda db) db.fresh (db.fresh + 1) db.positions (omega arith)
          v.holdings).used;
    single = v.holdings.single;
    sound =
        Sound-later (OnOanda db) (OnOanda _) db.positions (λ a. same-OnOanda db _ a refl refl)
          v.holdings.sound;
  };
})

result-Balanced :
    (c : PlaceOrderCommand) (now : ℕ) (halts : Store) (db : Db)
    (r : Result OrderFlowError (TradeOrder × Db))
    → place_order c now halts db ≡ r
    → Balanced db
    → Balanced (committed db r)
result-Balanced c now halts db (err e) h v = v
result-Balanced c now halts db (ok end) h v =
    Placed-Balanced c now db end v (place_order-Placed c now halts db end v h)

-- Every command keeps the tables balanced, whatever halts it finds and whether it fails or not.
pub perform-Balanced : (c : Command) (db : Db) → Balanced db → Balanced (perform c db)
perform-Balanced (intend c) db v =
    Intended-Balanced db (create_order_intent c db) v (create_order_intent-Intended c db)
perform-Balanced (place c now halts) db v =
    result-Balanced c now halts db (place_order c now halts db) refl v

-- Any sequence of orders and intents, at any times and under any halts, keeps the tables
-- balanced: every order is filled in full by one fill of its own with one ledger transaction of
-- its own, an account has one open position in an instrument at most, and only accounts on OANDA
-- are ever short.
pub run-Balanced : (cs : List Command) (db : Db) → Balanced db → Balanced (run cs db)
unfolding run
run-Balanced [] db v = v
run-Balanced (c ∷ cs) db v = run-Balanced cs (perform c db) (perform-Balanced c db v)
