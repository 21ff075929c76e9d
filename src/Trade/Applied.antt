-- ===== src/Trade/Applied.antt =====
-- `_apply_fill_to_position` keeps the position table sound.
use ai_system_trading.Prelude.{
  ℕ, ◌≤◌, ◌≡◌, refl, ◌∙◌, sym, true, false, ◌||◌, Option, none, some, List, inl, inr, arith,
  Bool-cases, Option-cases, Result, ok, err, ◌>>=◌, is_some,
}
use mathlib.Core.Path.{ap, subst}
use ai_system_trading.Prelude.Rows.{find, All-find, find_holds}
use ai_system_trading.Prelude.Table.{save}
use ai_system_trading.Money.Decimal.{Decimal, whole, ◌-𝔻◌, positive, less}
use ai_system_trading.Trade.Types.{
  ExchangeCode, is_oanda, OrderSide, is_buy, is_long, Fill, TradingPosition, Db, OrderFlowError,
}
use ai_system_trading.Trade.Position.{
  open_for, open_position, opening_side, same_direction, opened, increased, flipped, closed,
  reduced, changed_from, changed, open_new, apply_fill_to_position,
}
use ai_system_trading.Trade.Holdings.{Sound, Holdings, append-Holdings, save-Holdings}

-- What a fill against an open position leaves of it.
pub record Follows (S : ℕ → Type 0) (k p : TradingPosition) : Type 0 where
  pub same_id : p.id ≡ k.id
  pub same_account : p.account_id ≡ k.account_id
  pub same_instrument : p.instrument_id ≡ k.instrument_id
  pub sound : Sound S p

booked :
    (S : ℕ → Type 0) (k p : TradingPosition)
    → Sound S k
    → p.is_open ≡ k.is_open
    → p.side ≡ k.side
    → p.account_id ≡ k.account_id
    → is_some p.average_entry_price ≡ is_some k.average_entry_price
    → p.closed_at ≡ k.closed_at
    → Sound S p
booked S k p v o d a e c = record {
  priced = λ h. e ∙ v.priced (sym o ∙ h);
  long_only = λ h l. subst S (sym a) (v.long_only (sym o ∙ h) (sym (ap is_long d) ∙ l));
  stamped = λ h. ap is_some c ∙ v.stamped (sym o ∙ h);
}

-- What holds of a result: anything of an error.
abbrev pub AfterChange :
    (S : ℕ → Type 0) → TradingPosition → Result OrderFlowError (TradingPosition × Decimal) → Type 0
AfterChange S k (err e) = Unit
AfterChange S k (ok r) = Follows S k r.0

reduced-Follows :
    (S : ℕ → Type 0) (k : TradingPosition) (entry : Decimal) (fill : Fill) (side : OrderSide)
    (exchange : ExchangeCode) (now : ℕ)
    → (is_oanda exchange ≡ true → S k.account_id)
    → k.is_open ≡ true
    → Sound S k
    → AfterChange S k (reduced k entry fill side exchange now)
unfolding reduced flipped closed
reduced-Follows S k entry fill side exchange now may held v =
    elim (Bool-cases (positive (fill.quantity -𝔻 k.quantity))) [
      | inl more ↦ rw more (elim (Bool-cases (is_oanda exchange)) [
        | inl allowed ↦ rw allowed (record {
          same_id = refl;
          same_account = refl;
          same_instrument = refl;
          sound = record {
            priced = λ _. refl;
            long_only = λ _ _. may allowed;
            stamped = λ h. absurd (ground arith);
          };
        })
        | inr refused ↦ rw refused tt
      ])
      | inr rest ↦ rw rest (elim (Bool-cases (less (fill.quantity -𝔻 k.quantity) (whole 0))) [
        | inl part ↦ rw part (record {
          same_id = refl;
          same_account = refl;
          same_instrument = refl;
          sound = booked S k _ v refl refl refl refl refl;
        })
        | inr all ↦ rw all (record {
          same_id = refl;
          same_account = refl;
          same_instrument = refl;
          sound = record {
            priced = λ h. absurd (ground arith);
            long_only = λ h _. absurd (ground arith);
            stamped = λ _. refl;
          };
        })
      ])
    ]

changed_from-Follows :
    (S : ℕ → Type 0) (price : Option Decimal) (k : TradingPosition) (fill : Fill) (side : OrderSide)
    (exchange : ExchangeCode) (now : ℕ)
    → is_some price ≡ is_some k.average_entry_price
    → (is_oanda exchange ≡ true → S k.account_id)
    → k.is_open ≡ true
    → Sound S k
    → AfterChange S k (changed_from price k fill side exchange now)
unfolding changed_from increased
changed_from-Follows S none k fill side exchange now own may held v = tt
changed_from-Follows S (some entry) k fill side exchange now own may held v =
    elim (Bool-cases (same_direction side k.side)) [
      | inl more ↦ rw more (record {
        same_id = refl;
        same_account = refl;
        same_instrument = refl;
        sound = booked S k _ v refl refl refl own refl;
      })
      | inr against ↦ rw against (reduced-Follows S k entry fill side exchange now may held v)
    ]

-- The tables after a fill: only the positions and the counter have changed.
pub record Applied (S : ℕ → Type 0) (before after : Db) : Type 0 where
  pub positions : List TradingPosition
  pub fresh : ℕ
  pub same : after ≡ record before { positions = positions; fresh = fresh }
  pub grown : before.fresh ≤ fresh
  pub holdings : Holdings S fresh positions

abbrev pub AfterFill : (S : ℕ → Type 0) → Db → Result OrderFlowError (Decimal × Db) → Type 0
AfterFill S before (err e) = Unit
AfterFill S before (ok r) = Applied S before r.1

open_new-Applied :
    (S : ℕ → Type 0) (account instrument : ℕ) (fill : Fill) (side : OrderSide)
    (exchange : ExchangeCode) (now : ℕ) (db : Db)
    → (is_oanda exchange ≡ true → S account)
    → find (open_for account instrument) db.positions ≡ none
    → Holdings S db.fresh db.positions
    → AfterFill S db (open_new account instrument fill side exchange now db)
unfolding open_new opened
open_new-Applied S account instrument fill side exchange now db may absent v =
    elim (Bool-cases (is_buy side || is_oanda exchange)) [
      | inr refused ↦ rw refused tt
      | inl allowed ↦ rw allowed (record {
        positions = _;
        fresh = _;
        same = refl;
        grown = omega arith;
        holdings =
            append-Holdings S db.fresh
              (opened db.fresh account instrument (opening_side side) fill now) db.positions refl
              absent
              (record {
                priced = λ _. refl;
                long_only = λ _ l. may (short side l allowed);
                stamped = λ h. absurd (ground arith);
              })
              v;
      })
    ]
  where
    short :
        (side : OrderSide)
        → is_long (opening_side side) ≡ false
        → (is_buy side || is_oanda exchange) ≡ true
        → is_oanda exchange ≡ true
    short side l allowed = ground arith

stored-Applied :
    (S : ℕ → Type 0) (account instrument : ℕ) (k : TradingPosition) (db : Db)
    (r : Result OrderFlowError (TradingPosition × Decimal))
    → find (open_for account instrument) db.positions ≡ some k
    → Holdings S db.fresh db.positions
    → AfterChange S k r
    → AfterFill S db (
        r >>= λ after.
        ok (after.1, record db { positions = save (λ x. x.id) after.0 db.positions }))
stored-Applied S account instrument k db (err e) found v f = tt
stored-Applied S account instrument k db (ok r) found v f = record {
  positions = _;
  fresh = _;
  same = refl;
  grown = omega arith;
  holdings =
      save-Holdings S db.fresh account instrument r.0 k db.positions found f.same_id f.same_account
        f.same_instrument f.sound v;
}

-- A fill keeps the position table sound and touches no other table.
pub apply_fill_to_position-Applied :
    (S : ℕ → Type 0) (account instrument : ℕ) (fill : Fill) (side : OrderSide)
    (exchange : ExchangeCode) (now : ℕ) (db : Db)
    → (is_oanda exchange ≡ true → S account)
    → Holdings S db.fresh db.positions
    → AfterFill S db (apply_fill_to_position account instrument fill side exchange now db)
unfolding apply_fill_to_position open_position changed
apply_fill_to_position-Applied S account instrument fill side exchange now db may v =
    elim (Option-cases (find (open_for account instrument) db.positions)) [
      | inl absent ↦
          rw (absent, apply_fill_to_position)
            (open_new-Applied S account instrument fill side exchange now db may absent v)
      | inr (k, found) ↦
          let held = find_holds (open_for account instrument) db.positions k found in
          let own : k.account_id ≡ account = ground arith in
          rw (found, apply_fill_to_position)
            (stored-Applied S account instrument k db (changed k fill side exchange now) found v (
              changed_from-Follows S k.average_entry_price k fill side exchange now refl
                (λ o. subst S (sym own) (may o)) (ground arith)
                (All-find (Sound S) (open_for account instrument) db.positions k v.sound found)))
    ]
