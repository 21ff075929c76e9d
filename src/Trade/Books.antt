-- ===== src/Trade/Books.antt =====
-- The invariant of the tables of order_flow.py over any sequence of its commands.
use ai_system_trading.Prelude.{
  ℕ, ◌≤◌, ◌<◌, ◌≡◌, refl, ◌∙◌, sym, some, List, [], ◌∷◌, ◌++◌, map, arith, ok, ◌==◌, nat_equality,
  ◌&&◌,
}
use mathlib.Core.Path.{ap, subst}
use ai_system_trading.Prelude.Rows.{find, All, All-append}
use ai_system_trading.Bot.Types.{filled}
use ai_system_trading.Trade.Types.{
  oanda, TradingAccount, TradeOrder, TradingPosition, Db, PlaceOrderCommand,
}
use ai_system_trading.Trade.Place.{new_order, exchange_code_for_account}
use ai_system_trading.Trade.Holdings.{Sound, Holdings}
use ai_system_trading.Trade.Executed.{Placed}

-- The account is connected to OANDA, the one exchange where a position may be short.
pub record OnOanda (db : Db) (account_id : ℕ) : Type 0 where
  pub workspace_id : ℕ
  pub row : TradingAccount
  pub own : find (λ a. a.id == account_id && a.workspace_id == workspace_id) db.accounts ≡ some row
  pub exchange : exchange_code_for_account row db ≡ ok oanda

-- A filled order, for its whole quantity.
abbrev pub Filled : TradeOrder → Type 0
Filled o = (o.status ≡ filled) × (o.filled_quantity ≡ o.quantity)

-- Every order is filled, by one fill of its own for its whole quantity, which has one ledger transaction of its own; and
-- the positions are sound, with shorts on OANDA accounts only.
pub record Balanced (db : Db) : Type 0 where
  pub used : All (λ o. o.id < db.fresh) db.orders
  pub complete : All Filled db.orders
  pub one_fill : map (λ f. f.order_id) db.fills ≡ map (λ o. o.id) db.orders
  pub in_full : map (λ f. f.quantity) db.fills ≡ map (λ o. o.quantity) db.orders
  pub one_transaction : map (λ t. t.reference_id) db.transactions ≡ map (λ f. f.id) db.fills
  pub holdings : Holdings (OnOanda db) db.fresh db.positions

map-append : {A C : Type 0} (f : A → C) (xs ys : List A) → map f (xs ++ ys) ≡ map f xs ++ map f ys
map-append f [] ys = refl
map-append f (x ∷ xs) ys = ap (λ zs. f x ∷ zs) (map-append f xs ys)

map_last :
    {A B C : Type 0} (f : A → C) (g : B → C) (xs : List A) (ys : List B) (x : A) (y : B)
    → map f xs ≡ map g ys
    → f x ≡ g y
    → map f (xs ++ x ∷ []) ≡ map g (ys ++ y ∷ [])
map_last f g xs ys x y same last =
    map-append f xs (x ∷ []) ∙ rw (same, last) (sym (map-append g ys (y ∷ [])))

pub used_later :
    (n m : ℕ) (os : List TradeOrder) → n ≤ m → All (λ o. o.id < n) os → All (λ o. o.id < m) os
used_later n m [] le all = tt
used_later n m (o ∷ os) le all = (omega (arith, all.0), used_later n m os le all.1)

-- Nothing but the accounts and the connections says which accounts are on OANDA.
pub same-OnOanda :
    (before after : Db) (account_id : ℕ)
    → after.accounts ≡ before.accounts
    → after.connections ≡ before.connections
    → OnOanda before account_id
    → OnOanda after account_id
unfolding exchange_code_for_account
same-OnOanda before after account_id accounts connections h = record {
  workspace_id = h.workspace_id;
  row = h.row;
  own = rw accounts h.own;
  exchange = rw connections h.exchange;
}

pub Sound-later :
    (S T : ℕ → Type 0) (ps : List TradingPosition)
    → ((a : ℕ) → S a → T a)
    → All (Sound S) ps
    → All (Sound T) ps
Sound-later S T [] f all = tt
Sound-later S T (p ∷ ps) f all = (
  record {
    priced = all.0.priced;
    long_only = λ o l. f p.account_id (all.0.long_only o l);
    stamped = all.0.stamped;
  },
  Sound-later S T ps f all.1,
)

pub Placed-Balanced :
    (c : PlaceOrderCommand) (now : ℕ) (db : Db) (end : TradeOrder × Db)
    → Balanced db
    → Placed (OnOanda db) c now db end
    → Balanced end.1
unfolding new_order
Placed-Balanced c now db end v p = record {
  used =
      subst (λ os. All (λ o. o.id < end.1.fresh) os) (sym p.orders)
        (All-append (λ o. o.id < end.1.fresh) db.orders (end.0 ∷ [])
          (used_later db.fresh end.1.fresh db.orders (omega (arith, p.grown)) v.used)
          (p.order_used, tt));
  complete = subst (All Filled) (sym p.orders) (
      All-append Filled db.orders (end.0 ∷ []) v.complete (
        (
          ap (λ o. o.status) p.order,
          subst (λ o. o.filled_quantity ≡ o.quantity) (sym p.order) refl,
        ),
        tt,
      ));
  one_fill =
      rw (p.fills, p.orders)
        (map_last (λ f. f.order_id) (λ o. o.id) db.fills db.orders p.fill end.0 v.one_fill
          p.fill_order_id);
  in_full =
      rw (p.fills, p.orders)
        (map_last (λ f. f.quantity) (λ o. o.quantity) db.fills db.orders p.fill end.0 v.in_full
          (p.fill_quantity ∙ sym (ap (λ o. o.quantity) p.order)));
  one_transaction =
      rw (p.fills, p.transactions)
        (map_last (λ t. t.reference_id) (λ f. f.id) db.transactions db.fills p.transaction p.fill
          v.one_transaction p.reference);
  holdings = record {
    unique = p.holdings.unique;
    used = p.holdings.used;
    single = p.holdings.single;
    sound =
        Sound-later (OnOanda db) (OnOanda end.1) end.1.positions
          (λ a. same-OnOanda db end.1 a p.accounts p.connections) p.holdings.sound;
  };
}
