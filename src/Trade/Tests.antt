-- ===== src/Trade/Tests.antt =====
-- The theorems on orders at concrete tables, and runs of the commands.
use ai_system_trading.Prelude.{
  ℕ, ◌≡◌, refl, true, false, none, some, List, [], ◌∷◌, Result, err, is_ok, value_or, arith,
}
use ai_system_trading.Prelude.Rows.{length}
use ai_system_trading.Prelude.Table.{save}
use ai_system_trading.Money.Decimal.{whole, decimal_of, less, ◌+𝔻◌, ◌-𝔻◌, ◌*𝔻◌}
use ai_system_trading.Halt.{
  workspace, HaltScope, Activation, Store, entry_halted, activate_or_escalate, find_active_halt,
  has_active_halt_at_or_above,
}
use ai_system_trading.Halt.Invariant.{activate_or_escalate-IsValid}
use ai_system_trading.Halt.Tests.{no_halts, no_halts-IsValid}
use ai_system_trading.Trade.Types.{
  ExchangeCode, oanda, Instrument, OrderSide, buy, sell, market, TradeOrder, Db, PlaceOrderCommand,
  OrderFlowError, short_not_supported,
}
use ai_system_trading.Trade.Position.{open_position}
use ai_system_trading.Trade.Place.{new_order, is_closing_or_reducing, place_order}
use ai_system_trading.Trade.Executed.{Placed}
use ai_system_trading.Trade.Books.{OnOanda, Balanced}
use ai_system_trading.Trade.Halted.{the_workspace, place_order_halted}
use ai_system_trading.Trade.Runs.{place_order-Placed, Command, place, run, run-Balanced}

abbrev pub dollar_yen : Instrument
dollar_yen = record {
  id = 5;
  symbol = "USD_JPY";
  quote_asset = "JPY";
  tick_size = decimal_of 1 3;
  step_size = whole 1;
  min_quantity = some (whole 1);
  max_quantity = none;
}

abbrev market_db : ExchangeCode → Db
market_db exchange = record {
  accounts = record { id = 1; workspace_id = 1; connection_id = some 3 } ∷ [];
  connections = record { id = 3; exchange_code = some exchange } ∷ [];
  instruments = dollar_yen ∷ [];
  candles =
      record {
        instrument_id = 5;
        timeframe = "1m";
        open_time = 100;
        close_time = 160;
        high = decimal_of 15030 2;
        low = decimal_of 15020 2;
        close = decimal_of 15025 2;
        is_final = true;
      }
      ∷ [];
  spreads = record { instrument_id = 5; bid = decimal_of 15024 2; ask = decimal_of 15026 2 } ∷ [];
  runs = [];
  signals = [];
  decisions = [];
  intents = [];
  orders = [];
  history = [];
  fills = [];
  positions = [];
  transactions = [];
  entries = [];
  snapshots = [];
  audit = [];
  fresh = 10;
}

abbrev pub oanda_db : Db
oanda_db = market_db oanda

abbrev pub asking : OrderSide → ℕ → PlaceOrderCommand
asking side quantity = record {
  workspace_id = 1;
  account_id = 1;
  instrument_id = 5;
  side = side;
  order_type = market;
  quantity = whole quantity;
  client_order_id = "client-1";
  order_intent_id = none;
  limit_price = none;
  stop_price = none;
  time_in_force = "gtc";
  bot_id = some 7;
  stop_fill_price = none;
}

abbrev after : Db → Result OrderFlowError (TradeOrder × Db) → TradeOrder × Db
after db r = value_or (new_order (asking buy 0) 0 0, db) r

oanda_db-Balanced : Balanced oanda_db
oanda_db-Balanced = record {
  used = tt;
  complete = tt;
  one_fill = refl;
  in_full = refl;
  one_transaction = refl;
  holdings = record { unique = tt; used = tt; single = λ a i. omega arith; sound = tt };
}

place_order-Placed_example :
    Placed
      (OnOanda oanda_db)
      (asking buy 2)
      200
      oanda_db
      (after oanda_db (place_order (asking buy 2) 200 no_halts oanda_db))
unfolding place_order new_order less has_active_halt_at_or_above ◌+𝔻◌ ◌*𝔻◌ ◌-𝔻◌
place_order-Placed_example =
    place_order-Placed (asking buy 2) 200 no_halts oanda_db
      (after oanda_db (place_order (asking buy 2) 200 no_halts oanda_db)) oanda_db-Balanced refl

abbrev commands : List Command
commands =
    place (asking buy 2) 200 no_halts
    ∷ place (asking sell 5) 300 no_halts
    ∷ place (asking buy 0) 400 no_halts
    ∷ []

run-Balanced_example : Balanced (run commands oanda_db)
run-Balanced_example = run-Balanced commands oanda_db oanda_db-Balanced

-- The second order turns the position round, the third one is refused.
two_orders : length (run commands oanda_db).orders ≡ 2
unfolding run place_order less has_active_halt_at_or_above ◌+𝔻◌ ◌*𝔻◌ ◌-𝔻◌ save
two_orders = refl

turned_round : is_closing_or_reducing buy (open_position 1 5 (run commands oanda_db)) ≡ true
unfolding run place_order open_position less has_active_halt_at_or_above ◌+𝔻◌ ◌*𝔻◌ ◌-𝔻◌ save
turned_round = refl

no_short_on_binance :
    place_order (asking sell 1) 200 no_halts (market_db ExchangeCode.binance)
    ≡ err short_not_supported
unfolding place_order less has_active_halt_at_or_above ◌*𝔻◌ ◌-𝔻◌
no_short_on_binance = refl

abbrev whole_workspace : HaltScope
whole_workspace = record { workspace_id = 1; scope_type = workspace; scope_id = none }

abbrev halting : Activation
halting = record {
  scope = whole_workspace;
  reason_code = "ledger_mismatch";
  level = entry_halted;
  auto_releasable = false;
  event = none;
}

abbrev workspace_halted : Store
workspace_halted = (activate_or_escalate halting no_halts).1

place_order_halted_example :
    is_ok (place_order (asking buy 2) 200 workspace_halted oanda_db) ≡ false
unfolding find_active_halt open_position activate_or_escalate
place_order_halted_example =
    place_order_halted (asking buy 2) 200 whole_workspace "ledger_mismatch" workspace_halted
      oanda_db (activate_or_escalate-IsValid halting no_halts no_halts-IsValid) (the_workspace refl)
      (omega arith) tt
