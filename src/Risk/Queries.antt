-- ===== src/Risk/Queries.antt =====
-- What `evaluate_signal` asks the database: candles, the spread, equities, losses and orders.
use ai_system_trading.Prelude.{
  ℕ, zero, suc, Bool, true, false, ◌&&◌, Option, none, some, List, [], ◌∷◌, ◌++◌, if◌then◌else◌,
  ltb, leb, Result, ok, err, ◌==◌, nat_equality, string_equality,
}
use Prim.Native.String.{String}
use ai_system_trading.Prelude.Rows.{any, select}
use ai_system_trading.Money.Decimal.{
  Decimal, whole, ◌-𝔻◌, ◌*𝔻◌, ◌/𝔻◌, difference, negated, less, larger,
}
use ai_system_trading.Trade.Types.{
  ExchangeCode, oanda, binance, Instrument, Candle, InstrumentSpread, TradeOrder, TradingPosition,
  EntryType, LedgerEntry, AccountSnapshot, Db,
}
use ai_system_trading.Trade.Position.{open_position}
use ai_system_trading.Trade.Market.{latest_candle, spread_of, direction}
use ai_system_trading.Risk.Types.{Rules}
use ai_system_trading.Risk.Indicators.{average_true_range}
use ai_system_trading.Risk.Sync.{RiskGateError, unsupported_exchange, missing_rule}

module _ {A : Type 0} (key : A → ℕ) where
  -- `order_by(key.desc())`; rows of the same key keep their order.
  abbrev insert_latest : A → List A → List A
  insert_latest x [] = x ∷ []
  insert_latest x (y ∷ ys) =
      let rest = insert_latest x ys in if ltb (key x) (key y) then y ∷ rest else x ∷ y ∷ ys

  abbrev pub latest_first : List A → List A
  latest_first [] = []
  latest_first (x ∷ xs) = insert_latest x (latest_first xs)

abbrev pub first_of {ℓ} : {A : Type ℓ} → ℕ → List A → List A
first_of zero xs = []
first_of (suc n) [] = []
first_of (suc n) (x ∷ xs) = x ∷ first_of n xs

-- `list(reversed(rows))`
abbrev pub reversed : List Candle → List Candle
reversed [] = []
reversed (c ∷ cs) = reversed cs ++ c ∷ []

unfoldable pub recent_final_candles : (instrument : ℕ) → String → (limit : ℕ) → Db → List Candle
recent_final_candles instrument timeframe limit db = reversed (
    first_of limit (
      latest_first (λ c. c.open_time)
        (select (λ c. c.instrument_id == instrument && (c.timeframe == timeframe && c.is_final))
          db.candles)))

abbrev pub last_of : List Candle → Option Candle
last_of [] = none
last_of (c ∷ []) = some c
last_of (c ∷ d ∷ cs) = last_of (d ∷ cs)

unfoldable pub fee_buffer_per_unit :
    ExchangeCode → (price : Decimal) → Rules → Result RiskGateError Decimal
fee_buffer_per_unit oanda price rules = ok (whole 0)
fee_buffer_per_unit binance price rules = ok (price *𝔻 rules.binance.fee_rate)
fee_buffer_per_unit (ExchangeCode.other code) price rules = err unsupported_exchange

abbrev times_multiplier : Option Decimal → Decimal → Decimal
times_multiplier none multiplier = whole 0
times_multiplier (some atr) multiplier = atr *𝔻 multiplier

-- The rules of another exchange are not in the dictionary.
unfoldable pub stop_distance :
    ExchangeCode
    → Instrument
    → List Candle
    → (spread : Decimal) → Rules
    → Result RiskGateError Decimal
stop_distance oanda instrument candles spread rules = ok (
    larger
      (larger (times_multiplier (average_true_range candles 14) rules.oanda.stop_atr_multiplier)
        (spread *𝔻 rules.oanda.stop_spread_multiplier))
      (instrument.tick_size *𝔻 whole 50))
stop_distance binance instrument candles spread rules = ok (
    larger (times_multiplier (average_true_range candles 14) rules.binance.stop_atr_multiplier)
      (spread *𝔻 rules.binance.stop_spread_multiplier))
stop_distance (ExchangeCode.other code) instrument candles spread rules = err missing_rule

abbrev width : Option InstrumentSpread → Decimal
width none = whole 0
width (some row) = row.ask -𝔻 row.bid

unfoldable pub spread : ExchangeCode → (instrument : ℕ) → Db → Decimal
spread oanda instrument db = width (spread_of instrument db.spreads)
spread binance instrument db = width (spread_of instrument db.spreads)
spread (ExchangeCode.other code) instrument db = whole 0

-- The unrealized loss of a position at a price, as a magnitude.
unfoldable pub loss_at : TradingPosition → (entry price : Decimal) → Decimal
loss_at p entry price =
    let unrealized = (price -𝔻 entry) *𝔻 p.quantity *𝔻 direction p.side in
    if less unrealized (whole 0) then negated unrealized else whole 0

abbrev risk_of : Option TradingPosition → Option Candle → Decimal
risk_of none candle = whole 0
risk_of (some p) none = whole 0
risk_of (some p) (some candle) = elim p.average_entry_price [
  | none ↦ whole 0
  | some entry ↦ loss_at p entry candle.close
]

unfoldable pub existing_open_risk : (account instrument : ℕ) → Db → Decimal
unfolding open_position latest_candle loss_at
existing_open_risk account instrument db =
    risk_of (open_position account instrument db) (latest_candle instrument db.candles)

abbrev earlier : AccountSnapshot → Option AccountSnapshot → Option AccountSnapshot
earlier s none = some s
earlier s (some t) = if ltb t.captured_at s.captured_at then some t else some s

unfoldable pub first_since : (account since : ℕ) → List AccountSnapshot → Option AccountSnapshot
first_since account since [] = none
first_since account since (s ∷ ss) =
    let rest = first_since account since ss in
    if s.account_id == account && leb since s.captured_at then earlier s rest else rest

abbrev equity_of : Option AccountSnapshot → Option Decimal
equity_of none = none
equity_of (some s) = some s.equity

unfoldable pub equity_at : (account since : ℕ) → Db → Option Decimal
unfolding first_since
equity_at account since db = equity_of (first_since account since db.snapshots)

abbrev counts_since : Option ℕ → (strictly : Bool) → ℕ → Bool
counts_since none strictly time = true
counts_since (some since) true time = ltb since time
counts_since (some since) false time = leb since time

abbrev highest : Decimal → Option Decimal → Option Decimal
highest d none = some d
highest d (some e) = some (larger d e)

unfoldable pub best_of : (account : ℕ) → Option ℕ → List AccountSnapshot → Option Decimal
best_of account since [] = none
best_of account since (s ∷ ss) =
    let rest = best_of account since ss in
    if s.account_id == account && counts_since since false s.captured_at
    then highest s.equity rest
    else rest

unfoldable pub peak_equity : (account : ℕ) → Option ℕ → Db → Option Decimal
unfolding best_of
peak_equity account since db = best_of account since db.snapshots

abbrev is_realized : EntryType → Bool
is_realized EntryType.realized_pnl = true
is_realized _ = false

-- The losses before the first entry that is none.
abbrev pub losing_run : List LedgerEntry → ℕ
losing_run [] = 0
losing_run (e ∷ es) = let rest = losing_run es in if less e.amount (whole 0) then suc rest else 0

unfoldable pub consecutive_losses : (account : ℕ) → Option ℕ → Db → ℕ
consecutive_losses account since db = losing_run (
    first_of 50 (
      latest_first (λ e. e.occurred_at)
        (select
          (λ e.
            e.account_id == account
            && (is_realized e.entry_type && counts_since since true e.occurred_at))
          db.entries)))

-- The joins from an order to its bot.
abbrev run_is_of : (bot run : ℕ) → Db → Bool
run_is_of bot run db = any (λ r. r.id == run && r.bot_id == bot) db.runs

abbrev signal_is_of : (bot signal : ℕ) → Db → Bool
signal_is_of bot signal db = any (λ s. s.id == signal && run_is_of bot s.bot_run_id db) db.signals

abbrev pub order_is_of : ℕ → Db → TradeOrder → Bool
order_is_of bot db o = elim o.order_intent_id [
  | none ↦ false
  | some id ↦ any (λ i. i.id == id && signal_is_of bot i.signal_id db) db.intents
]

abbrev since_order : ℕ → List TradeOrder → Option Decimal
since_order now [] = none
since_order now (o ∷ os) = some (difference now o.created_at 0 /𝔻 whole 60)

unfoldable pub minutes_since_last_order : (bot now : ℕ) → Db → Option Decimal
minutes_since_last_order bot now db =
    since_order now (latest_first (λ o. o.created_at) (select (order_is_of bot db) db.orders))
