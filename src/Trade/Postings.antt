-- ===== src/Trade/Postings.antt =====
-- What a fill earns and what it posts to the ledger, described from the order and the position that
-- it found.
use Prim.Native.String.{String}
use ai_system_trading.Prelude.{
  ℕ, ◌≡◌, refl, ◌⊎◌, inl, inr, true, false, ◌||◌, Option, none, some, List, [], ◌∷◌, ◌++◌,
  if◌then◌else◌, Bool-cases, Option-cases, arith, Result, ok, err, ◌>>=◌, Returns,
}
use mathlib.Core.Path.{subst}
use ai_system_trading.Prelude.Rows.{find}
use ai_system_trading.Prelude.Table.{save}
use ai_system_trading.Money.Decimal.{
  Decimal, whole, ◌-𝔻◌, ◌*𝔻◌, negated, less, smaller, positive, same_value,
}
use ai_system_trading.Trade.Types.{
  ExchangeCode, is_oanda, Instrument, OrderSide, buy, sell, is_buy, PositionSide, long, short,
  TradeOrder, Fill, TradingPosition, EntryType, LedgerEntry, Db, OrderFlowError,
}
use ai_system_trading.Trade.Position.{
  open_for, open_position, same_direction, realized, reduced, changed_from, changed, open_new,
  apply_fill_to_position,
}
use ai_system_trading.Trade.Fill.{new_fill, entries_of, new_transaction}

-- A sale out of a long position earns what the price has risen on the part that it closes, a
-- purchase back of a short one what it has fallen; nothing is earned otherwise.
abbrev pub gain_from :
    OrderSide → PositionSide → (price quantity held : Decimal) → Option Decimal → Decimal
gain_from buy long price quantity held entry = whole 0
gain_from sell short price quantity held entry = whole 0
gain_from side position price quantity held none = whole 0
gain_from sell long price quantity held (some entry) =
    (price -𝔻 entry) *𝔻 smaller quantity held *𝔻 whole 1
gain_from buy short price quantity held (some entry) =
    (price -𝔻 entry) *𝔻 smaller quantity held *𝔻 negated (whole 1)

abbrev pub gain : OrderSide → (price quantity : Decimal) → Option TradingPosition → Decimal
gain side price quantity none = whole 0
gain side price quantity (some p) =
    gain_from side p.side price quantity p.quantity p.average_entry_price

reduced-gain :
    (p : TradingPosition) (entry : Decimal) (fill : Fill) (side : OrderSide) (x : ExchangeCode)
    (now : ℕ)
    → Returns (λ r. r.1 ≡ realized p entry fill) (reduced p entry fill side x now)
unfolding reduced
reduced-gain p entry fill side x now = elim (Bool-cases (positive (fill.quantity -𝔻 p.quantity))) [
  | inl more ↦ rw more (elim (Bool-cases (is_oanda x)) [
    | inl allowed ↦ rw allowed refl
    | inr refused ↦ rw refused tt
  ])
  | inr rest ↦ rw rest (elim (Bool-cases (less (fill.quantity -𝔻 p.quantity) (whole 0))) [
    | inl part ↦ rw part refl
    | inr all ↦ rw all refl
  ])
]

sides : (s : PositionSide) → (s ≡ long) ⊎ (s ≡ short)
sides long = inl refl
sides short = inr refl

-- Against the position's direction the gain is what the part that is closed has earned.
realized_gain :
    (p : TradingPosition) (entry : Decimal) (fill : Fill) (side : OrderSide)
    → same_direction side p.side ≡ false
    → realized p entry fill ≡ gain_from side p.side fill.price fill.quantity p.quantity (some entry)
unfolding realized
realized_gain p entry fill buy against = elim (sides p.side) [
  | inl held ↦ absurd (ground (arith, against, held))
  | inr held ↦ rw held refl
]
realized_gain p entry fill sell against = elim (sides p.side) [
  | inl held ↦ rw held refl
  | inr held ↦ absurd (ground (arith, against, held))
]

no_gain :
    (p : TradingPosition) (entry : Decimal) (fill : Fill) (side : OrderSide)
    → same_direction side p.side ≡ true
    → whole 0 ≡ gain_from side p.side fill.price fill.quantity p.quantity (some entry)
no_gain p entry fill buy along = elim (sides p.side) [
  | inl held ↦ rw held refl
  | inr held ↦ absurd (ground (arith, along, held))
]
no_gain p entry fill sell along = elim (sides p.side) [
  | inl held ↦ absurd (ground (arith, along, held))
  | inr held ↦ rw held refl
]

changed_from-gain :
    (price : Option Decimal) (p : TradingPosition) (fill : Fill) (side : OrderSide)
    (x : ExchangeCode) (now : ℕ)
    → Returns
        (λ r. r.1 ≡ gain_from side p.side fill.price fill.quantity p.quantity price)
        (changed_from price p fill side x now)
unfolding changed_from
changed_from-gain none p fill side x now = tt
changed_from-gain (some entry) p fill side x now = elim (Bool-cases (same_direction side p.side)) [
  | inl along ↦ rw along (no_gain p entry fill side along)
  | inr against ↦ rw against (
      subst (λ g. Returns (λ r. r.1 ≡ g) (reduced p entry fill side x now))
        (realized_gain p entry fill side against) (reduced-gain p entry fill side x now))
]

open_new-gain :
    (account instrument : ℕ) (fill : Fill) (side : OrderSide) (x : ExchangeCode) (now : ℕ) (db : Db)
    → Returns (λ r. r.0 ≡ whole 0) (open_new account instrument fill side x now db)
unfolding open_new
open_new-gain account instrument fill side x now db =
    elim (Bool-cases (is_buy side || is_oanda x)) [
      | inl allowed ↦ rw allowed refl
      | inr refused ↦ rw refused tt
    ]

-- The profit that a fill realizes is the gain on the position that it finds.
pub apply_fill_to_position-gain :
    (account instrument : ℕ) (fill : Fill) (side : OrderSide) (x : ExchangeCode) (now : ℕ) (db : Db)
    → Returns
        (λ r. r.0 ≡ gain side fill.price fill.quantity (open_position account instrument db))
        (apply_fill_to_position account instrument fill side x now db)
unfolding apply_fill_to_position open_position changed
apply_fill_to_position-gain account instrument fill side x now db =
    elim (Option-cases (find (open_for account instrument) db.positions)) [
      | inl absent ↦
          rw (absent, apply_fill_to_position) (open_new-gain account instrument fill side x now db)
      | inr (p, found) ↦
          rw (found, apply_fill_to_position)
            (stored (gain side fill.price fill.quantity (some p)) (changed p fill side x now)
              (changed_from-gain p.average_entry_price p fill side x now))
    ]
  where
    stored :
        (g : Decimal) (r : Result OrderFlowError (TradingPosition × Decimal))
        → Returns (λ q. q.1 ≡ g) r
        → Returns {A = Decimal × Db}
            (λ q. q.0 ≡ g)
            (r >>= λ after.
              ok (after.1, record db { positions = save (λ y. y.id) after.0 db.positions }))
    stored g (err e) h = tt
    stored g (ok r) h = h

-- The entries that an order's fill posts: the cash that it moves, its fee if there is one, and its
-- gain if there is one, each on the order's account.
module _ (account transaction : ℕ) (side : OrderSide) (fill : Fill) where
  abbrev posting : (asset : String) → EntryType → Decimal → LedgerEntry
  posting asset type amount = record {
    transaction_id = transaction;
    account_id = account;
    fill_id = some fill.id;
    asset = asset;
    amount = amount;
    entry_type = type;
    occurred_at = fill.executed_at;
  }

  -- A purchase pays the price, a sale receives it.
  abbrev cash_moved : OrderSide → Decimal
  cash_moved buy = negated (fill.price *𝔻 fill.quantity)
  cash_moved sell = fill.price *𝔻 fill.quantity

  abbrev charge : (asset : String) → List LedgerEntry
  charge asset =
      if positive fill.fee_amount
      then posting asset EntryType.fee (negated fill.fee_amount) ∷ []
      else []

  abbrev profit : (asset : String) → Decimal → List LedgerEntry
  profit asset earned =
      if same_value earned (whole 0) then [] else posting asset EntryType.realized_pnl earned ∷ []

  abbrev pub postings : (asset : String) → (earned : Decimal) → List LedgerEntry
  postings asset earned =
      posting asset EntryType.cash (cash_moved side) ∷ (charge asset ++ profit asset earned)

pub entries_of-postings :
    (o : TradeOrder) (i : Instrument) (id t account : ℕ) (price fee : Decimal) (now : ℕ)
    (side : OrderSide) (pnl : Decimal)
    → let fill = new_fill o i id price fee now in
      entries_of (new_transaction t account fill) i fill side pnl
      ≡ postings account t side fill i.quote_asset pnl
unfolding entries_of new_fill new_transaction
entries_of-postings o i id t account price fee now buy pnl = refl
entries_of-postings o i id t account price fee now sell pnl = refl
