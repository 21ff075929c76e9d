-- ===== src/Trade/Types.antt =====
-- The rows and the commands of app/trading/application/order_flow.py.
use Prim.Native.String.{String}
use ai_system_trading.Prelude.{ℕ, Bool, true, false, Option, List}
use ai_system_trading.Money.Decimal.{Decimal}
use ai_system_trading.Bot.Types.{OrderStatus, AuditRow}

-- `exchange.code`: the two exchanges that the rules name, and any other.
pub data ExchangeCode : Type 0 where
  oanda binance : ExchangeCode
  other : String → ExchangeCode

pub record Instrument : Type 0 where
  pub id : ℕ
  pub symbol : String
  pub quote_asset : String
  pub tick_size : Decimal
  pub step_size : Decimal
  pub min_quantity : Option Decimal
  pub max_quantity : Option Decimal

-- `OrderSide`, `OrderTypeLiteral` and `trading_position.side`
pub data OrderSide : Type 0 where
  buy sell : OrderSide

pub data OrderType : Type 0 where
  market limit : OrderType

pub data PositionSide : Type 0 where
  long short : PositionSide

pub record TradingAccount : Type 0 where
  pub id : ℕ
  pub workspace_id : ℕ
  pub connection_id : Option ℕ

-- `exchange_connection` joined with the code of its exchange, if there is one.
pub record Connection : Type 0 where
  pub id : ℕ
  pub exchange_code : Option ExchangeCode

pub record Candle : Type 0 where
  pub instrument_id : ℕ
  pub timeframe : String
  pub open_time : ℕ
  pub close_time : ℕ
  pub high : Decimal
  pub low : Decimal
  pub close : Decimal
  pub is_final : Bool

pub record InstrumentSpread : Type 0 where
  pub instrument_id : ℕ
  pub bid : Decimal
  pub ask : Decimal

-- `signal.action`
pub data SignalAction : Type 0 where
  buy sell hold : SignalAction

pub record Signal : Type 0 where
  pub id : ℕ
  pub bot_run_id : ℕ
  pub action : SignalAction

-- The columns of `risk_decision` that an intent is checked by.
pub record RiskDecision : Type 0 where
  pub id : ℕ
  pub signal_id : ℕ

pub record OrderIntent : Type 0 where
  pub id : ℕ
  pub signal_id : ℕ
  pub risk_decision_id : ℕ
  pub side : OrderSide
  pub order_type : OrderType
  pub requested_quantity : Decimal
  pub limit_price : Option Decimal
  pub stop_price : Option Decimal
  pub take_profit_price : Option Decimal
  pub max_slippage_bps : Option ℕ
  pub expires_at : Option ℕ

pub record TradeOrder : Type 0 where
  pub id : ℕ
  pub workspace_id : ℕ
  pub account_id : ℕ
  pub order_intent_id : Option ℕ
  pub client_order_id : String
  pub instrument_id : ℕ
  pub side : OrderSide
  pub order_type : OrderType
  pub time_in_force : String
  pub quantity : Decimal
  pub limit_price : Option Decimal
  pub stop_price : Option Decimal
  pub status : OrderStatus
  pub filled_quantity : Decimal
  pub submitted_at : ℕ
  pub created_at : ℕ
  pub updated_at : ℕ

pub record StatusChange : Type 0 where
  pub order_id : ℕ
  pub from_status : Option OrderStatus
  pub to_status : OrderStatus
  pub reason_code : Option String
  pub occurred_at : ℕ

pub record Fill : Type 0 where
  pub id : ℕ
  pub order_id : ℕ
  pub price : Decimal
  pub quantity : Decimal
  pub fee_amount : Decimal
  pub fee_asset : String
  pub executed_at : ℕ

pub record TradingPosition : Type 0 where
  pub id : ℕ
  pub account_id : ℕ
  pub instrument_id : ℕ
  pub side : PositionSide
  pub quantity : Decimal
  pub average_entry_price : Option Decimal
  pub is_open : Bool
  pub realized_pnl : Decimal
  pub version : ℕ
  pub opened_at : ℕ
  pub closed_at : Option ℕ
  pub updated_at : ℕ

-- The description, a text for people, is left out.
pub record LedgerTransaction : Type 0 where
  pub id : ℕ
  pub account_id : ℕ
  pub reference_id : ℕ
  pub occurred_at : ℕ

pub data EntryType : Type 0 where
  cash fee realized_pnl deposit withdrawal : EntryType
  position financing funding adjustment : EntryType

pub record LedgerEntry : Type 0 where
  pub transaction_id : ℕ
  pub account_id : ℕ
  pub fill_id : Option ℕ
  pub asset : String
  pub amount : Decimal
  pub entry_type : EntryType
  pub occurred_at : ℕ

pub record AccountSnapshot : Type 0 where
  pub account_id : ℕ
  pub captured_at : ℕ
  pub cash : Decimal
  pub equity : Decimal
  pub unrealized_pnl : Decimal

-- The columns of `bot_run` that the last order of a bot is found by.
pub record BotRun : Type 0 where
  pub id : ℕ
  pub bot_id : ℕ

-- The tables, in the order of insertion, and the next unused identifier.
pub record Db : Type 0 where
  pub accounts : List TradingAccount
  pub connections : List Connection
  pub instruments : List Instrument
  pub candles : List Candle
  pub spreads : List InstrumentSpread
  pub runs : List BotRun
  pub signals : List Signal
  pub decisions : List RiskDecision
  pub intents : List OrderIntent
  pub orders : List TradeOrder
  pub history : List StatusChange
  pub fills : List Fill
  pub positions : List TradingPosition
  pub transactions : List LedgerTransaction
  pub entries : List LedgerEntry
  pub snapshots : List AccountSnapshot
  pub audit : List AuditRow
  pub fresh : ℕ

pub record OrderIntentCommand : Type 0 where
  pub signal_id : ℕ
  pub risk_decision_id : ℕ
  pub side : OrderSide
  pub order_type : OrderType
  pub requested_quantity : Decimal
  pub limit_price : Option Decimal
  pub stop_price : Option Decimal
  pub take_profit_price : Option Decimal
  pub max_slippage_bps : Option ℕ
  pub expires_at : Option ℕ

pub record PlaceOrderCommand : Type 0 where
  pub workspace_id : ℕ
  pub account_id : ℕ
  pub instrument_id : ℕ
  pub side : OrderSide
  pub order_type : OrderType
  pub quantity : Decimal
  pub client_order_id : String
  pub order_intent_id : Option ℕ
  pub limit_price : Option Decimal
  pub stop_price : Option Decimal
  pub time_in_force : String
  pub bot_id : Option ℕ
  pub stop_fill_price : Option Decimal

-- The codes of `OrderFlowError`
pub data OrderFlowError : Type 0 where
  invalid_input account_not_found instrument_not_found connection_missing exchange_not_found
        order_intent_not_found order_intent_mismatch trading_halted market_price_unavailable
        invalid_fill_price unsupported_exchange short_not_supported position_missing_entry_price
        signal_not_found risk_decision_not_found risk_decision_signal_mismatch :
      OrderFlowError

abbrev pub is_buy : OrderSide → Bool
is_buy buy = true
is_buy sell = false

abbrev pub is_long : PositionSide → Bool
is_long long = true
is_long short = false

abbrev pub is_oanda : ExchangeCode → Bool
is_oanda oanda = true
is_oanda _ = false
