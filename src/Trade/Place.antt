-- ===== src/Trade/Place.antt =====
-- `create_order_intent` and `place_order`.
use Prim.Native.String.{String}
use ai_system_trading.Prelude.{
  ℕ, ◌+◌, Bool, true, false, not, ◌&&◌, ◌||◌, Option, none, some, List, [], ◌∷◌, ◌++◌,
  if◌then◌else◌, Result, ok, err, ◌>>=◌, ◌>>◌, require, ◌==◌, nat_equality,
}
use ai_system_trading.Prelude.Rows.{find, any}
use ai_system_trading.Money.Decimal.{Decimal, whole, positive, same_value}
use ai_system_trading.Events.{Value, words, uuid, amount, null, Payload}
use ai_system_trading.Halt.{
  ScopeType, account, workspace, bot, entry_halted, HaltScope, Store, has_active_halt_at_or_above,
}
use ai_system_trading.Bot.Types.{submitted, AuditRow}
use ai_system_trading.Trade.Types.{
  ExchangeCode, Instrument, OrderSide, buy, sell, is_buy, OrderType, market, limit, is_long,
  TradingAccount, OrderIntent, TradeOrder, Fill, TradingPosition, Db, OrderIntentCommand,
  PlaceOrderCommand, OrderFlowError, invalid_input, account_not_found, instrument_not_found,
  connection_missing, exchange_not_found, order_intent_not_found, order_intent_mismatch,
  trading_halted, signal_not_found, risk_decision_not_found, risk_decision_signal_mismatch,
}
use ai_system_trading.Trade.Position.{open_position, apply_fill_to_position}
use ai_system_trading.Trade.Market.{record_account_snapshot}
use ai_system_trading.Trade.Fill.{record_status, simulate_fill, record_ledger}

abbrev pub found_or {ℓ} : {A E : Type ℓ} → E → Option A → Result E A
found_or e none = err e
found_or e (some a) = ok a

unfoldable pub validate_order_type_price : OrderType → Option Decimal → Result OrderFlowError Unit
validate_order_type_price market none = ok tt
validate_order_type_price market (some price) = err invalid_input
validate_order_type_price limit none = err invalid_input
validate_order_type_price limit (some price) = require (positive price) invalid_input

unfoldable pub create_order_intent :
    OrderIntentCommand → Db → Result OrderFlowError (OrderIntent × Db)
unfolding validate_order_type_price
create_order_intent c db = do
  require (positive c.requested_quantity) invalid_input
  validate_order_type_price c.order_type c.limit_price
  signal ← found_or signal_not_found (find (λ s. s.id == c.signal_id) db.signals)
  decision ← found_or risk_decision_not_found (find (λ d. d.id == c.risk_decision_id) db.decisions)
  require (decision.signal_id == c.signal_id) risk_decision_signal_mismatch
  let intent : OrderIntent = record {
    id = db.fresh;
    signal_id = c.signal_id;
    risk_decision_id = c.risk_decision_id;
    side = c.side;
    order_type = c.order_type;
    requested_quantity = c.requested_quantity;
    limit_price = c.limit_price;
    stop_price = c.stop_price;
    take_profit_price = c.take_profit_price;
    max_slippage_bps = c.max_slippage_bps;
    expires_at = c.expires_at;
  }
  ok (intent, record db { intents = db.intents ++ intent ∷ []; fresh = db.fresh + 1 })

unfoldable pub exchange_code_for_account : TradingAccount → Db → Result OrderFlowError ExchangeCode
exchange_code_for_account a db = do
  connection ← found_or connection_missing a.connection_id
  row ← found_or exchange_not_found (find (λ c. c.id == connection) db.connections)
  found_or exchange_not_found row.exchange_code

abbrev same_side : OrderSide → OrderSide → Bool
same_side a b = if is_buy a then is_buy b else not (is_buy b)

-- The order's intent, if it names one, exists and has its side.
unfoldable pub check_intent : PlaceOrderCommand → Db → Result OrderFlowError Unit
check_intent c db = elim c.order_intent_id [
  | none ↦ ok tt
  | some id ↦ found_or order_intent_not_found (find (λ i. i.id == id) db.intents) >>= λ intent.
      require (same_side intent.side c.side) order_intent_mismatch
]

abbrev pub is_closing_or_reducing : OrderSide → Option TradingPosition → Bool
is_closing_or_reducing side none = false
is_closing_or_reducing side (some p) = if is_buy side then not (is_long p.side) else is_long p.side

abbrev holds_exactly : Decimal → Option TradingPosition → Bool
holds_exactly quantity none = false
holds_exactly quantity (some p) = same_value quantity p.quantity

abbrev is_market : OrderType → Bool
is_market market = true
is_market limit = false

-- A stop's price is only for a market order that closes the whole position.
unfoldable pub check_stop_fill :
    PlaceOrderCommand → Option TradingPosition → Result OrderFlowError Unit
check_stop_fill c held = elim c.stop_fill_price [
  | none ↦ ok tt
  | some price ↦
      require
        (is_market c.order_type
          && (positive price
              && (is_closing_or_reducing c.side held && holds_exactly c.quantity held)))
        invalid_input
]

abbrev pub scope_of : ℕ → ScopeType → Option ℕ → HaltScope
scope_of workspace_id type id = record {
  workspace_id = workspace_id;
  scope_type = type;
  scope_id = id;
}

abbrev bot_scopes : ℕ → Option ℕ → List HaltScope
bot_scopes workspace_id none = []
bot_scopes workspace_id (some id) = scope_of workspace_id bot (some id) ∷ []

abbrev pub entry_scopes : (workspace_id account_id : ℕ) → Option ℕ → List HaltScope
entry_scopes workspace_id account_id bot_id =
    scope_of workspace_id account (some account_id)
    ∷ scope_of workspace_id workspace none
    ∷ bot_scopes workspace_id bot_id

unfoldable pub entry_blocked_by_halt : (workspace_id account_id : ℕ) → Option ℕ → Store → Bool
entry_blocked_by_halt workspace_id account_id bot_id halts =
    any (λ s. has_active_halt_at_or_above s entry_halted halts)
      (entry_scopes workspace_id account_id bot_id)

abbrev side_text : OrderSide → String
side_text buy = "buy"
side_text sell = "sell"

abbrev type_text : OrderType → String
type_text market = "market"
type_text limit = "limit"

abbrev uuid_or_null : Option ℕ → Value
uuid_or_null none = null
uuid_or_null (some id) = uuid id

abbrev audited : ℕ → String → ℕ → Payload → Db → Db
audited workspace_id action order_id details db =
    let row : AuditRow = record {
      workspace_id = workspace_id;
      action = action;
      resource_type = "trade_order";
      resource_id = order_id;
      after_data = details;
    } in
    record db { audit = db.audit ++ row ∷ [] }

unfoldable pub new_order : PlaceOrderCommand → (id : ℕ) → ℕ → TradeOrder
new_order c id now = record {
  id = id;
  workspace_id = c.workspace_id;
  account_id = c.account_id;
  order_intent_id = c.order_intent_id;
  client_order_id = c.client_order_id;
  instrument_id = c.instrument_id;
  side = c.side;
  order_type = c.order_type;
  time_in_force = c.time_in_force;
  quantity = c.quantity;
  limit_price = c.limit_price;
  stop_price = c.stop_price;
  status = submitted;
  filled_quantity = whole 0;
  submitted_at = now;
  created_at = now;
  updated_at = now;
}

-- The new order's row, its first status and its audit row.
unfoldable pub submit : PlaceOrderCommand → ℕ → Db → TradeOrder × Db
unfolding new_order record_status
submit c now db =
    let o = new_order c db.fresh now in
    let db' : Db = record db { orders = db.orders ++ o ∷ []; fresh = db.fresh + 1 } in
    let details : Payload =
      ("account_id", uuid c.account_id)
      ∷ ("instrument_id", uuid c.instrument_id)
      ∷ ("side", words (side_text c.side))
      ∷ ("order_type", words (type_text c.order_type))
      ∷ ("quantity", amount c.quantity)
      ∷ ("order_intent_id", uuid_or_null c.order_intent_id)
      ∷ [] in
    (
      o,
      audited c.workspace_id "trade_order.submitted" o.id details
          (record_status o none submitted none now db'),
    )

-- The ledger, the account's value and the audit row of a fill that the position has taken.
unfoldable pub book :
    PlaceOrderCommand
    → TradingAccount
    → Instrument
    → ℕ
    → Fill
    → TradeOrder
    → (Decimal × Db)
    → TradeOrder × Db
unfolding record_ledger record_account_snapshot
book c a instrument now fill o (pnl, db) =
    let details : Payload =
      ("fill_id", uuid fill.id)
      ∷ ("price", amount fill.price)
      ∷ ("fee_amount", amount fill.fee_amount)
      ∷ ("realized_pnl", amount pnl)
      ∷ [] in
    let booked = record_ledger a.id instrument fill c.side pnl db in
    (
      o,
      audited c.workspace_id "trade_order.filled" o.id details
          (record_account_snapshot a.id instrument now booked),
    )

-- The position and all that follows it.
unfoldable pub settle :
    PlaceOrderCommand
    → TradingAccount
    → Instrument
    → ExchangeCode
    → ℕ
    → (Fill × (TradeOrder × Db))
    → Result OrderFlowError (TradeOrder × Db)
unfolding apply_fill_to_position book
settle c a instrument exchange now (fill, (o, db)) =
    apply_fill_to_position a.id instrument.id fill c.side exchange now db >>= λ moved.
    ok (book c a instrument now fill o moved)

-- `place_order` after its guards.
unfoldable pub execute :
    PlaceOrderCommand
    → TradingAccount
    → Instrument
    → ExchangeCode
    → ℕ
    → Db
    → Result OrderFlowError (TradeOrder × Db)
unfolding submit simulate_fill settle
execute c a instrument exchange now db =
    let (o, placed) = submit c now db in
    simulate_fill o instrument exchange c.stop_fill_price now placed >>= λ done.
    settle c a instrument exchange now done

-- An error leaves the tables as they were: the caller keeps the old ones.
unfoldable pub place_order :
    PlaceOrderCommand → ℕ → Store → Db → Result OrderFlowError (TradeOrder × Db)
unfolding validate_order_type_price exchange_code_for_account check_intent check_stop_fill
    entry_blocked_by_halt execute open_position
place_order c now halts db = do
  require (positive c.quantity) invalid_input
  validate_order_type_price c.order_type c.limit_price
  a ←
      found_or account_not_found
        (find (λ x. x.id == c.account_id && x.workspace_id == c.workspace_id) db.accounts)
  instrument ← found_or instrument_not_found (find (λ i. i.id == c.instrument_id) db.instruments)
  exchange ← exchange_code_for_account a db
  check_intent c db
  let held = open_position a.id instrument.id db
  check_stop_fill c held
  require
      (is_closing_or_reducing c.side held
        || not (entry_blocked_by_halt c.workspace_id a.id c.bot_id halts))
      trading_halted
  execute c a instrument exchange now db
