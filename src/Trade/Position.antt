-- ===== src/Trade/Position.antt =====
-- `_open_position` and `_apply_fill_to_position`: the net position of an account in an instrument.
use ai_system_trading.Prelude.{
  ℕ, ◌+◌, Bool, true, false, not, ◌&&◌, ◌||◌, Option, none, some, [], ◌∷◌, ◌++◌, if◌then◌else◌,
  Result, ok, err, ◌>>=◌, ◌==◌, nat_equality,
}
use ai_system_trading.Prelude.Rows.{find}
use ai_system_trading.Prelude.Table.{save}
use ai_system_trading.Money.Decimal.{
  Decimal, whole, ◌+𝔻◌, ◌-𝔻◌, ◌*𝔻◌, ◌/𝔻◌, negated, less, smaller, positive,
}
use ai_system_trading.Trade.Types.{
  ExchangeCode, is_oanda, OrderSide, buy, sell, is_buy, PositionSide, long, short, is_long, Fill,
  TradingPosition, Db, OrderFlowError, short_not_supported, position_missing_entry_price,
}

abbrev pub open_for : (account instrument : ℕ) → TradingPosition → Bool
open_for account instrument p =
    p.account_id == account && (p.instrument_id == instrument && p.is_open)

unfoldable pub open_position : (account instrument : ℕ) → Db → Option TradingPosition
open_position account instrument db = find (open_for account instrument) db.positions

abbrev pub opening_side : OrderSide → PositionSide
opening_side buy = long
opening_side sell = short

abbrev pub same_direction : OrderSide → PositionSide → Bool
same_direction buy side = is_long side
same_direction sell side = not (is_long side)

-- The row of a position that a fill opens.
unfoldable pub opened : (id account instrument : ℕ) → PositionSide → Fill → ℕ → TradingPosition
opened id account instrument side fill now = record {
  id = id;
  account_id = account;
  instrument_id = instrument;
  side = side;
  quantity = fill.quantity;
  average_entry_price = some fill.price;
  is_open = true;
  realized_pnl = whole 0;
  version = 1;
  opened_at = now;
  closed_at = none;
  updated_at = now;
}

-- A fill in the position's direction, at the average of the two prices.
unfoldable pub increased : TradingPosition → Decimal → Fill → ℕ → TradingPosition
increased p entry fill now =
    let total_cost = entry *𝔻 p.quantity +𝔻 fill.price *𝔻 fill.quantity in
    let quantity = p.quantity +𝔻 fill.quantity in
    record p {
      quantity = quantity;
      average_entry_price = some (total_cost /𝔻 quantity);
      version = p.version + 1;
      updated_at = now;
    }

-- What the part of the position that the fill closes has earned.
unfoldable pub realized : TradingPosition → Decimal → Fill → Decimal
realized p entry fill =
    (fill.price -𝔻 entry)
    *𝔻 smaller fill.quantity p.quantity
    *𝔻 (if is_long p.side then whole 1 else negated (whole 1))

-- The position after a fill against its direction: turned round, closed or reduced.
unfoldable pub flipped : TradingPosition → Fill → PositionSide → Decimal → ℕ → TradingPosition
flipped p fill side remainder now = record p {
  side = side;
  quantity = remainder;
  average_entry_price = some fill.price;
  opened_at = now;
}

unfoldable pub closed : TradingPosition → ℕ → TradingPosition
closed p now = record p { quantity = whole 0; is_open = false; closed_at = some now }

unfoldable pub reduced :
    TradingPosition
    → Decimal
    → Fill
    → OrderSide
    → ExchangeCode
    → ℕ
    → Result OrderFlowError (TradingPosition × Decimal)
unfolding realized flipped closed
reduced p entry fill side exchange now =
    let pnl = realized p entry fill in
    let booked : TradingPosition = record p {
      realized_pnl = p.realized_pnl +𝔻 pnl;
      version = p.version + 1;
      updated_at = now;
    } in
    let remainder = fill.quantity -𝔻 p.quantity in
    if positive remainder
    then (if is_oanda exchange
        then ok (flipped booked fill (opening_side side) remainder now, pnl)
        else err short_not_supported)
    else (if less remainder (whole 0)
        then ok (record booked { quantity = p.quantity -𝔻 fill.quantity }, pnl)
        else ok (closed booked now, pnl))

unfoldable pub changed_from :
    (average_entry_price : Option Decimal)
    → TradingPosition
    → Fill
    → OrderSide
    → ExchangeCode
    → ℕ
    → Result OrderFlowError (TradingPosition × Decimal)
unfolding increased reduced
changed_from none p fill side exchange now = err position_missing_entry_price
changed_from (some entry) p fill side exchange now =
    if same_direction side p.side
    then ok (increased p entry fill now, whole 0)
    else reduced p entry fill side exchange now

unfoldable pub changed :
    TradingPosition
    → Fill
    → OrderSide
    → ExchangeCode
    → ℕ
    → Result OrderFlowError (TradingPosition × Decimal)
unfolding changed_from
changed p fill side exchange now = changed_from p.average_entry_price p fill side exchange now

unfoldable pub open_new :
    (account instrument : ℕ)
    → Fill
    → OrderSide
    → ExchangeCode
    → ℕ
    → Db
    → Result OrderFlowError (Decimal × Db)
unfolding opened
open_new account instrument fill side exchange now db =
    if is_buy side || is_oanda exchange
    then (let row = opened db.fresh account instrument (opening_side side) fill now in
        ok (whole 0, record db { positions = db.positions ++ row ∷ []; fresh = db.fresh + 1 }))
    else err short_not_supported

-- The realized profit, and the tables with the position changed.
unfoldable pub apply_fill_to_position :
    (account instrument : ℕ)
    → Fill
    → OrderSide
    → ExchangeCode
    → ℕ
    → Db
    → Result OrderFlowError (Decimal × Db)
unfolding open_position open_new changed
apply_fill_to_position account instrument fill side exchange now db =
    elim (open_position account instrument db) [
      | none ↦ open_new account instrument fill side exchange now db
      | some p ↦ changed p fill side exchange now >>= λ after.
          ok (after.1, record db { positions = save (λ x. x.id) after.0 db.positions })
    ]
