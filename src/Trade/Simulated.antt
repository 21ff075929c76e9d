-- ===== src/Trade/Simulated.antt =====
-- The fill that `_simulate_fill` makes: its price and its fee.
use ai_system_trading.Prelude.{
  ℕ, ◌≡◌, refl, true, Option, inl, inr, Bool-cases, if◌then◌else◌, Result, ok, err, Returns,
  >>=-Returns,
}
use ai_system_trading.Money.Decimal.{Decimal, ◌+𝔻◌, ◌-𝔻◌, positive}
use ai_system_trading.Trade.Types.{
  ExchangeCode, is_buy, Instrument, OrderSide, TradeOrder, Fill, Db, OrderFlowError,
}
use ai_system_trading.Trade.Market.{latest_candle, expected_slippage, fee_buffer}
use ai_system_trading.Trade.Fill.{
  new_fill, fill_order, close_price, or_close, fill_at, fill_from, simulate_fill,
}

-- A fill at a positive price for the whole quantity of its order.
pub record FilledAt (o : TradeOrder) (i : Instrument) (price fee : Decimal) (now : ℕ) (db : Db)
    (r : Fill × (TradeOrder × Db)) : Type 0 where
  pub positive_price : positive price ≡ true
  pub same : r ≡ (
    new_fill o i db.fresh price fee now,
    fill_order o (new_fill o i db.fresh price fee now) now db,
  )

-- The price is the stop's, or the close of the latest final candle, made worse for the account by
-- the expected slippage; the fee is reckoned at the price before that.
pub record Quoted (side : OrderSide) (quantity : Decimal) (instrument : ℕ) (x : ExchangeCode)
    (stop : Option Decimal) (db : Db) (price fee : Decimal) : Type 0 where
  pub close : Decimal
  pub market : close_price (latest_candle instrument db.candles) ≡ ok close
  pub priced : price ≡ (
      if is_buy side
      then or_close stop close +𝔻 expected_slippage x instrument db
      else or_close stop close -𝔻 expected_slippage x instrument db)
  pub charged : fee_buffer x (or_close stop close) quantity ≡ ok fee

pub record Simulated (o : TradeOrder) (i : Instrument) (x : ExchangeCode) (stop : Option Decimal)
    (now : ℕ) (db : Db) (r : Fill × (TradeOrder × Db)) : Type 0 where
  pub price : Decimal
  pub fee : Decimal
  pub quoted : Quoted o.side o.quantity o.instrument_id x stop db price fee
  pub filled : FilledAt o i price fee now db r

fill_at-FilledAt :
    (o : TradeOrder) (i : Instrument) (price fee : Decimal) (now : ℕ) (db : Db)
    → Returns (FilledAt o i price fee now db) (fill_at o i price fee now db)
unfolding fill_at
fill_at-FilledAt o i price fee now db = elim (Bool-cases (positive price)) [
  | inl paid ↦ rw paid (record { positive_price = paid; same = refl })
  | inr refused ↦ rw refused tt
]

pub simulate_fill-Simulated :
    (o : TradeOrder) (i : Instrument) (x : ExchangeCode) (stop : Option Decimal) (now : ℕ) (db : Db)
    → Returns (Simulated o i x stop now db) (simulate_fill o i x stop now db)
unfolding simulate_fill fill_from
simulate_fill-Simulated o i x stop now db =
    >>=-Returns (Simulated o i x stop now db)
      (close_price (latest_candle o.instrument_id db.candles))
      (λ close. fill_from o i x now db (or_close stop close))
      (λ close market.
        >>=-Returns (Simulated o i x stop now db) (fee_buffer x (or_close stop close) o.quantity)
          (λ fee. fill_at o i _ fee now db)
          (λ fee charged.
            at _ fee (record { close = close; market = market; priced = refl; charged = charged })
              (fill_at o i _ fee now db) (fill_at-FilledAt o i _ fee now db)))
  where
    at :
        (price fee : Decimal)
        → Quoted o.side o.quantity o.instrument_id x stop db price fee
        → (r : Result OrderFlowError (Fill × (TradeOrder × Db)))
        → Returns (FilledAt o i price fee now db) r
        → Returns (Simulated o i x stop now db) r
    at price fee quoted (err e) filled = tt
    at price fee quoted (ok r) filled = record {
      price = price;
      fee = fee;
      quoted = quoted;
      filled = filled;
    }
