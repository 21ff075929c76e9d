-- ===== src/Trade/Executed.antt =====
-- What `place_order` writes when it succeeds.
use ai_system_trading.Prelude.{
  ℕ, ◌+◌, ◌<◌, ◌≡◌, refl, ◌∙◌, sym, true, Option, none, some, List, [], ◌∷◌, ◌++◌, inl, inr, arith,
  Bool-cases, ok, Returns, >>=-Returns, Returns-ok, nat_beq, nat_beq_iff, ◌&&◌, ◌==◌, nat_equality,
}
use mathlib.Core.Path.{ap, subst}
use ai_system_trading.Prelude.Rows.{All, find}
use ai_system_trading.Prelude.Table.{save}
use ai_system_trading.Money.Decimal.{Decimal, positive}
use ai_system_trading.Bot.Types.{OrderStatus, submitted, filled}
use ai_system_trading.Trade.Types.{
  ExchangeCode, is_oanda, Instrument, TradingAccount, TradeOrder, StatusChange, Fill,
  LedgerTransaction, Db, PlaceOrderCommand,
}
use ai_system_trading.Trade.Position.{open_position, apply_fill_to_position}
use ai_system_trading.Trade.Market.{expected_slippage, record_account_snapshot}
use ai_system_trading.Trade.Fill.{
  record_status, set_status, new_fill, fill_order, simulate_fill, entries_of, new_transaction,
  record_ledger,
}
use ai_system_trading.Trade.Place.{
  exchange_code_for_account, new_order, submit, book, settle, execute,
}
use ai_system_trading.Trade.Postings.{
  gain, apply_fill_to_position-gain, postings, entries_of-postings,
}
use ai_system_trading.Trade.Simulated.{Quoted, Simulated, simulate_fill-Simulated}
use ai_system_trading.Trade.Holdings.{Holdings, later-Holdings}
use ai_system_trading.Trade.Applied.{Applied, AfterFill, apply_fill_to_position-Applied}

-- Saving the row that was appended last replaces it.
pub save_last :
    (a b : TradeOrder) (os : List TradeOrder)
    → All (λ o. o.id < b.id) os
    → a.id ≡ b.id
    → save (λ o. o.id) a (os ++ b ∷ []) ≡ os ++ a ∷ []
unfolding save
save_last a b [] below same = rw ((nat_beq_iff b.id a.id).1 (sym same))
save_last a b (o ∷ os) below same = elim (Bool-cases (nat_beq o.id a.id)) [
  | inl hit ↦ absurd (omega (arith, below.0, same, (nat_beq_iff o.id a.id).0 hit))
  | inr miss ↦ rw (miss, save_last a b os below.1 same)
]

abbrev pub step : (order_id : ℕ) → Option OrderStatus → OrderStatus → (now : ℕ) → StatusChange
step order_id from to now = record {
  order_id = order_id;
  from_status = from;
  to_status = to;
  reason_code = none;
  occurred_at = now;
}

-- The command's account, instrument and exchange, as the tables name them.
pub record Known (c : PlaceOrderCommand) (db : Db) (a : TradingAccount) (i : Instrument)
    (x : ExchangeCode) : Type 0 where
  pub own_account :
      find (λ r. r.id == c.account_id && r.workspace_id == c.workspace_id) db.accounts ≡ some a
  pub same_account : a.id ≡ c.account_id
  pub own_instrument : find (λ r. r.id == c.instrument_id) db.instruments ≡ some i
  pub same_instrument : i.id ≡ c.instrument_id
  pub own_exchange : exchange_code_for_account a db ≡ ok x

-- Everything that a placed order leaves in the tables.
pub record Placed (S : ℕ → Type 0) (c : PlaceOrderCommand) (now : ℕ) (db : Db)
    (end : TradeOrder × Db) : Type 0 where
  pub account : TradingAccount
  pub instrument : Instrument
  pub exchange : ExchangeCode
  pub known : Known c db account instrument exchange
  pub fill : Fill
  pub transaction : LedgerTransaction
  pub order :
      end.0 ≡ record (new_order c db.fresh now) { status = filled; filled_quantity = c.quantity }
  pub orders : end.1.orders ≡ db.orders ++ end.0 ∷ []
  pub history :
      end.1.history
      ≡ (db.history ++ step end.0.id none submitted now ∷ [])
        ++ step end.0.id (some submitted) filled now ∷ []
  pub fills : end.1.fills ≡ db.fills ++ fill ∷ []
  pub fill_order_id : fill.order_id ≡ end.0.id
  pub fill_quantity : fill.quantity ≡ c.quantity
  pub fill_price : positive fill.price ≡ true
  pub fill_quoted :
      Quoted c.side c.quantity c.instrument_id exchange c.stop_fill_price db fill.price
        fill.fee_amount
  pub fill_asset : fill.fee_asset ≡ instrument.quote_asset
  pub fill_time : fill.executed_at ≡ now
  pub transactions : end.1.transactions ≡ db.transactions ++ transaction ∷ []
  pub reference : transaction.reference_id ≡ fill.id
  pub transaction_account : transaction.account_id ≡ c.account_id
  pub entries :
      end.1.entries
      ≡ db.entries
        ++ postings c.account_id transaction.id c.side fill instrument.quote_asset
            (gain c.side fill.price c.quantity (open_position c.account_id c.instrument_id db))
  pub grown : db.fresh < end.1.fresh
  pub order_used : end.0.id < end.1.fresh
  pub holdings : Holdings S end.1.fresh end.1.positions
  pub accounts : end.1.accounts ≡ db.accounts
  pub connections : end.1.connections ≡ db.connections

book-Placed :
    (S : ℕ → Type 0) (c : PlaceOrderCommand) (a : TradingAccount) (i : Instrument)
    (x : ExchangeCode) (now : ℕ) (db : Db) (price fee : Decimal) (moved : Decimal × Db)
    → Known c db a i x
    → Quoted c.side c.quantity c.instrument_id x c.stop_fill_price db price fee
    → let o = new_order c db.fresh now in
      let placed = (submit c now db).1 in
      let fill = new_fill o i placed.fresh price fee now in
      let done = fill_order o fill now placed in
      positive price ≡ true
      → All (λ x. x.id < db.fresh) db.orders
      → Applied S done.1 moved.1
      → moved.0 ≡ gain c.side price c.quantity (open_position a.id i.id db)
      → Placed S c now db (book c a i now fill done.0 moved)
unfolding book record_ledger record_account_snapshot submit record_status fill_order set_status
    new_order new_fill new_transaction
book-Placed S c a i x now db price fee moved known quoted paid below applied earned =
    let o = new_order c db.fresh now in
    let fill = new_fill o i (db.fresh + 1) price fee now in
    let t = new_transaction moved.1.fresh a.id fill in
    record {
      account = a;
      instrument = i;
      exchange = x;
      known = known;
      fill = fill;
      transaction = t;
      order = refl;
      orders = ap (λ d. d.orders) applied.same ∙ save_last _ o db.orders below refl;
      history = ap (λ d. d.history) applied.same;
      fills = ap (λ d. d.fills) applied.same;
      fill_order_id = refl;
      fill_quantity = refl;
      fill_price = paid;
      fill_quoted = quoted;
      fill_asset = refl;
      fill_time = refl;
      transactions = ap (λ d. d.transactions ++ t ∷ []) applied.same;
      reference = refl;
      transaction_account = known.same_account;
      entries =
          ap (λ d. d.entries ++ entries_of t i fill c.side moved.0) applied.same
          ∙ ap (λ es. db.entries ++ es)
              (entries_of-postings o i (db.fresh + 1) moved.1.fresh a.id price fee now c.side
                  moved.0
                ∙ ap (postings a.id t.id c.side fill i.quote_asset) earned
                ∙ ap
                    (λ k.
                      postings k t.id c.side fill i.quote_asset
                        (gain c.side price c.quantity (open_position k i.id db)))
                    known.same_account
                ∙ ap
                    (λ k.
                      postings c.account_id t.id c.side fill i.quote_asset
                        (gain c.side price c.quantity (open_position c.account_id k db)))
                    known.same_instrument);
      grown = omega (arith, applied.grown, ap (λ d. d.fresh) applied.same);
      order_used = omega (arith, applied.grown, ap (λ d. d.fresh) applied.same);
      holdings =
          subst (λ d. Holdings S (d.fresh + 1) d.positions) (sym applied.same)
            (later-Holdings S applied.fresh (applied.fresh + 1) applied.positions (omega arith)
              applied.holdings);
      accounts = ap (λ d. d.accounts) applied.same;
      connections = ap (λ d. d.connections) applied.same;
    }

-- The order's row and its status change no price.
requoted :
    (c : PlaceOrderCommand) (x : ExchangeCode) (now : ℕ) (db : Db) (price fee : Decimal)
    → let o = new_order c db.fresh now in
      Quoted o.side o.quantity o.instrument_id x c.stop_fill_price (submit c now db).1 price fee
      → Quoted c.side c.quantity c.instrument_id x c.stop_fill_price db price fee
unfolding submit new_order record_status expected_slippage
requoted c x now db price fee q = record {
  close = q.close;
  market = q.market;
  priced = q.priced;
  charged = q.charged;
}

-- An execution that succeeds leaves all of it.
pub execute-Placed :
    (S : ℕ → Type 0) (c : PlaceOrderCommand) (a : TradingAccount) (i : Instrument)
    (x : ExchangeCode) (now : ℕ) (db : Db)
    → Known c db a i x
    → (is_oanda x ≡ true → S a.id)
    → All (λ o. o.id < db.fresh) db.orders
    → Holdings S db.fresh db.positions
    → Returns (Placed S c now db) (execute c a i x now db)
unfolding execute settle submit new_order new_fill record_status fill_order set_status open_position
execute-Placed S c a i x now db known may below v =
    let o = new_order c db.fresh now in
    let placed = (submit c now db).1 in
    let simulated = simulate_fill-Simulated o i x c.stop_fill_price now placed in
    >>=-Returns (Placed S c now db) (simulate_fill o i x c.stop_fill_price now placed)
      (settle c a i x now)
      (λ r e. settled r (Returns-ok (Simulated o i x c.stop_fill_price now placed) _ r simulated e))
  where
    settled :
        (r : Fill × (TradeOrder × Db))
        → Simulated (new_order c db.fresh now) i x c.stop_fill_price now (submit c now db).1 r
        → Returns (Placed S c now db) (settle c a i x now r)
    settled r s =
        let fill =
          new_fill (new_order c db.fresh now) i (submit c now db).1.fresh s.price s.fee now in
        let done = fill_order (new_order c db.fresh now) fill now (submit c now db).1 in
        subst (λ q. Returns (Placed S c now db) (settle c a i x now q)) (sym s.filled.same)
          (>>=-Returns (Placed S c now db)
            (apply_fill_to_position a.id i.id fill c.side x now done.1)
            (λ moved. ok (book c a i now fill done.0 moved))
            (λ moved e.
              book-Placed S c a i x now db s.price s.fee moved known
                (requoted c x now db s.price s.fee s.quoted) s.filled.positive_price below
                (subst (AfterFill S done.1) e (
                  apply_fill_to_position-Applied S a.id i.id fill c.side x now done.1 may
                    (later-Holdings S db.fresh (db.fresh + 1 + 1) db.positions (omega arith) v)))
                (Returns-ok (λ r. r.0 ≡ gain c.side s.price c.quantity (open_position a.id i.id db))
                  (apply_fill_to_position a.id i.id fill c.side x now done.1) moved
                  (apply_fill_to_position-gain a.id i.id fill c.side x now done.1) e)))
