-- ===== src/Trade/Fill.antt =====
-- The status trail, `_simulate_fill` and `_record_ledger`.
use Prim.Native.String.{String}
use ai_system_trading.Prelude.{
  ℕ, ◌+◌, Option, none, some, List, [], ◌∷◌, ◌++◌, if◌then◌else◌, Result, ok, err, ◌>>=◌,
}
use ai_system_trading.Prelude.Table.{save}
use ai_system_trading.Money.Decimal.{
  Decimal, whole, ◌+𝔻◌, ◌-𝔻◌, ◌*𝔻◌, negated, positive, same_value,
}
use ai_system_trading.Bot.Types.{OrderStatus, filled}
use ai_system_trading.Trade.Types.{
  ExchangeCode, Instrument, OrderSide, is_buy, Candle, TradeOrder, StatusChange, Fill,
  LedgerTransaction, EntryType, LedgerEntry, Db, OrderFlowError, market_price_unavailable,
  invalid_fill_price,
}
use ai_system_trading.Trade.Market.{latest_candle, expected_slippage, fee_buffer}

unfoldable pub record_status :
    TradeOrder → Option OrderStatus → OrderStatus → Option String → ℕ → Db → Db
record_status o from to reason now db =
    let change : StatusChange = record {
      order_id = o.id;
      from_status = from;
      to_status = to;
      reason_code = reason;
      occurred_at = now;
    } in
    record db { history = db.history ++ change ∷ [] }

unfoldable pub set_status : TradeOrder → OrderStatus → Option String → ℕ → Db → TradeOrder × Db
unfolding record_status
set_status o to reason now db =
    let db' = record_status o (some o.status) to reason now db in
    let o' = record o { status = to; updated_at = now } in
    (o', record db' { orders = save (λ x. x.id) o' db'.orders })

abbrev pub close_price : Option Candle → Result OrderFlowError Decimal
close_price none = err market_price_unavailable
close_price (some candle) = ok candle.close

abbrev pub or_close : Option Decimal → Decimal → Decimal
or_close none close = close
or_close (some price) close = price

unfoldable pub new_fill : TradeOrder → Instrument → (id : ℕ) → (price fee : Decimal) → ℕ → Fill
new_fill o instrument id price fee now = record {
  id = id;
  order_id = o.id;
  price = price;
  quantity = o.quantity;
  fee_amount = fee;
  fee_asset = instrument.quote_asset;
  executed_at = now;
}

-- The fill's row, and the order filled.
unfoldable pub fill_order : TradeOrder → Fill → ℕ → Db → TradeOrder × Db
unfolding set_status
fill_order o fill now db =
    let db' : Db = record db { fills = db.fills ++ fill ∷ []; fresh = db.fresh + 1 } in
    set_status (record o { filled_quantity = o.quantity }) filled none now db'

unfoldable pub fill_at :
    TradeOrder
    → Instrument
    → (price fee : Decimal) → ℕ
    → Db
    → Result OrderFlowError (Fill × (TradeOrder × Db))
unfolding new_fill fill_order
fill_at o instrument price fee now db =
    if positive price
    then (let fill = new_fill o instrument db.fresh price fee now in
        ok (fill, fill_order o fill now db))
    else err invalid_fill_price

-- The fill at a price before its costs.
unfoldable pub fill_from :
    TradeOrder
    → Instrument
    → ExchangeCode
    → ℕ
    → Db
    → (price : Decimal) → Result OrderFlowError (Fill × (TradeOrder × Db))
unfolding expected_slippage fee_buffer fill_at
fill_from o instrument exchange now db price =
    let slippage = expected_slippage exchange o.instrument_id db in
    fee_buffer exchange price o.quantity >>= λ fee.
    fill_at o instrument (if is_buy o.side then price +𝔻 slippage else price -𝔻 slippage) fee now db

-- `base_price` is the price of a stop that was triggered, if there was one.
unfoldable pub simulate_fill :
    TradeOrder
    → Instrument
    → ExchangeCode
    → Option Decimal
    → ℕ
    → Db
    → Result OrderFlowError (Fill × (TradeOrder × Db))
unfolding latest_candle fill_from
simulate_fill o instrument exchange base_price now db =
    close_price (latest_candle o.instrument_id db.candles) >>= λ close.
    fill_from o instrument exchange now db (or_close base_price close)

abbrev entry : LedgerTransaction → Fill → (asset : String) → EntryType → Decimal → LedgerEntry
entry t fill asset type amount = record {
  transaction_id = t.id;
  account_id = t.account_id;
  fill_id = some fill.id;
  asset = asset;
  amount = amount;
  entry_type = type;
  occurred_at = fill.executed_at;
}

-- `fee_asset or quote_asset`: the fills of this module always name their fee's asset.
unfoldable pub entries_of :
    LedgerTransaction → Instrument → Fill → OrderSide → Decimal → List LedgerEntry
entries_of t instrument fill side pnl =
    let notional = fill.price *𝔻 fill.quantity in
    let amount = if is_buy side then negated notional else notional in
    entry t fill instrument.quote_asset EntryType.cash amount
      ∷ (if positive fill.fee_amount
          then entry t fill fill.fee_asset EntryType.fee (negated fill.fee_amount) ∷ []
          else [])
    ++ (if same_value pnl (whole 0)
        then []
        else entry t fill instrument.quote_asset EntryType.realized_pnl pnl ∷ [])

unfoldable pub new_transaction : (id account : ℕ) → Fill → LedgerTransaction
new_transaction id account fill = record {
  id = id;
  account_id = account;
  reference_id = fill.id;
  occurred_at = fill.executed_at;
}

unfoldable pub record_ledger : (account : ℕ) → Instrument → Fill → OrderSide → Decimal → Db → Db
unfolding new_transaction entries_of
record_ledger account instrument fill side pnl db =
    let t = new_transaction db.fresh account fill in
    record db {
      transactions = db.transactions ++ t ∷ [];
      entries = db.entries ++ entries_of t instrument fill side pnl;
      fresh = db.fresh + 1;
    }
