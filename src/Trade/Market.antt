-- ===== src/Trade/Market.antt =====
-- Prices and costs: the latest final candle, the spread, the fee, and the value of an account
-- (app/trading/application/account_valuation.py).
use Prim.Native.String.{String}
use ai_system_trading.Prelude.{
  ℕ, Bool, true, false, ◌&&◌, Option, none, some, List, [], ◌∷◌, ◌++◌, if◌then◌else◌, ltb, Result,
  ok, err, ◌==◌, nat_equality, string_equality,
}
use ai_system_trading.Prelude.Rows.{find}
use ai_system_trading.Money.Decimal.{
  Decimal, whole, decimal_of, exact_sum, ◌+𝔻◌, ◌-𝔻◌, ◌*𝔻◌, negated,
}
use ai_system_trading.Trade.Types.{
  ExchangeCode, PositionSide, is_long, Instrument, Candle, InstrumentSpread, TradingPosition,
  EntryType, LedgerEntry, AccountSnapshot, Db, OrderFlowError, unsupported_exchange,
}
use ai_system_trading.Trade.Position.{open_position}

abbrev later_candle : Candle → Option Candle → Option Candle
later_candle c none = some c
later_candle c (some d) = if ltb c.open_time d.open_time then some d else some c

-- The query for the final candle with the latest opening time. Where two have the same time,
-- which a unique index excludes, the first one.
unfoldable pub latest_candle : ℕ → List Candle → Option Candle
latest_candle instrument [] = none
latest_candle instrument (c ∷ cs) =
    let rest = latest_candle instrument cs in
    if c.instrument_id == instrument && c.is_final then later_candle c rest else rest

-- `SLIPPAGE_COEFFICIENT_BY_EXCHANGE.get`
abbrev pub slippage_coefficient : ExchangeCode → Option Decimal
slippage_coefficient ExchangeCode.oanda = some (decimal_of 5 1)
slippage_coefficient ExchangeCode.binance = some (decimal_of 10 1)
slippage_coefficient (ExchangeCode.other code) = none

abbrev pub spread_of : ℕ → List InstrumentSpread → Option InstrumentSpread
spread_of instrument rows = find (λ r. r.instrument_id == instrument) rows

abbrev slipped : Decimal → Option InstrumentSpread → Decimal
slipped coefficient none = whole 0
slipped coefficient (some row) = (row.ask -𝔻 row.bid) *𝔻 coefficient

unfoldable pub expected_slippage : ExchangeCode → ℕ → Db → Decimal
expected_slippage exchange instrument db = elim (slippage_coefficient exchange) [
  | none ↦ whole 0
  | some coefficient ↦ slipped coefficient (spread_of instrument db.spreads)
]

unfoldable pub fee_buffer :
    ExchangeCode → (price quantity : Decimal) → Result OrderFlowError Decimal
fee_buffer ExchangeCode.oanda price quantity = ok (whole 0)
fee_buffer ExchangeCode.binance price quantity = ok (price *𝔻 quantity *𝔻 decimal_of 1 3)
fee_buffer (ExchangeCode.other code) price quantity = err unsupported_exchange

-- `_CASH_ENTRY_TYPES`
abbrev pub is_cash_entry : EntryType → Bool
is_cash_entry EntryType.cash = true
is_cash_entry EntryType.fee = true
is_cash_entry EntryType.deposit = true
is_cash_entry EntryType.withdrawal = true
is_cash_entry _ = false

-- `coalesce(sum(...), 0)` in the database, which does not round.
unfoldable pub sum_of : (LedgerEntry → Bool) → List LedgerEntry → Decimal
sum_of p [] = whole 0
sum_of p (e ∷ es) = let rest = sum_of p es in if p e then exact_sum e.amount rest else rest

unfoldable pub cash_balance : (account : ℕ) → (asset : String) → Db → Decimal
unfolding sum_of
cash_balance account asset db =
    sum_of (λ e. e.account_id == account && (e.asset == asset && is_cash_entry e.entry_type))
      db.entries

abbrev pub direction : PositionSide → Decimal
direction side = if is_long side then whole 1 else negated (whole 1)

-- The market value and the profit of a position at a price.
abbrev pub marked : TradingPosition → (entry price : Decimal) → Decimal × Decimal
marked p entry price =
    (price *𝔻 p.quantity *𝔻 direction p.side, (price -𝔻 entry) *𝔻 p.quantity *𝔻 direction p.side)

abbrev entry_price : Option TradingPosition → Option (TradingPosition × Decimal)
entry_price none = none
entry_price (some p) = elim p.average_entry_price [ none ↦ none | some entry ↦ some (p, entry) ]

abbrev valued : Option (TradingPosition × Decimal) → Option Candle → Decimal × Decimal
valued none candle = (whole 0, whole 0)
valued (some held) none = (whole 0, whole 0)
valued (some held) (some candle) = marked held.0 held.1 candle.close

unfoldable pub open_position_valuation : (account instrument : ℕ) → Db → Decimal × Decimal
unfolding open_position latest_candle
open_position_valuation account instrument db =
    valued (entry_price (open_position account instrument db)) (latest_candle instrument db.candles)

pub record AccountValuation : Type 0 where
  pub cash : Decimal
  pub unrealized_pnl : Decimal
  pub equity : Decimal

unfoldable pub value_account : (account : ℕ) → Instrument → Db → AccountValuation
unfolding open_position_valuation cash_balance
value_account account instrument db =
    let (market_value, unrealized) = open_position_valuation account instrument.id db in
    let cash = cash_balance account instrument.quote_asset db in
    record { cash = cash; unrealized_pnl = unrealized; equity = cash +𝔻 market_value }

unfoldable pub record_account_snapshot : (account : ℕ) → Instrument → ℕ → Db → Db
unfolding value_account
record_account_snapshot account instrument now db =
    let valuation = value_account account instrument db in
    let row : AccountSnapshot = record {
      account_id = account;
      captured_at = now;
      cash = valuation.cash;
      equity = valuation.equity;
      unrealized_pnl = valuation.unrealized_pnl;
    } in
    record db { snapshots = db.snapshots ++ row ∷ [] }
