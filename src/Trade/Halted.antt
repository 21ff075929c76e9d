-- ===== src/Trade/Halted.antt =====
-- Orders under a trading halt.
use ai_system_trading.Prelude.{
  ℕ, ◌≤◌, ◌≡◌, refl, true, false, not, ◌&&◌, ◌||◌, Option, none, some, arith, Result, ok, err,
  is_ok, ◌==◌, nat_equality, nat_beq_iff,
}
use Prim.Native.String.{String}
use mathlib.Core.Path.{subst}
use ai_system_trading.Prelude.Rows.{find_holds}
use ai_system_trading.Halt.{
  HaltScope, Store, entry_halted, find_active_halt, has_active_halt_at_or_above, account, workspace,
  bot,
}
use ai_system_trading.Halt.Invariant.{IsValid}
use ai_system_trading.Halt.Escalation.{current}
use ai_system_trading.Halt.Relaxation.{has_active_halt_at_or_above_iff}
use ai_system_trading.Trade.Types.{
  OrderSide, buy, sell, long, short, TradingPosition, TradeOrder, Db, PlaceOrderCommand,
  OrderFlowError,
}
use ai_system_trading.Trade.Position.{open_position}
use ai_system_trading.Trade.Place.{
  is_closing_or_reducing, scope_of, entry_blocked_by_halt, place_order,
}
use ai_system_trading.Trade.Guards.{Cleared, place_order-Cleared}

pub Cleared-account :
    (c : PlaceOrderCommand) (now : ℕ) (halts : Store) (db : Db) (end : TradeOrder × Db)
    → (k : Cleared c now halts db end) → k.account.id ≡ c.account_id
Cleared-account c now halts db end k = ground (
  arith,
  find_holds (λ x. x.id == c.account_id && x.workspace_id == c.workspace_id) db.accounts k.account
      k.own_account,
)

pub Cleared-instrument :
    (c : PlaceOrderCommand) (now : ℕ) (halts : Store) (db : Db) (end : TradeOrder × Db)
    → (k : Cleared c now halts db end) → k.instrument.id ≡ c.instrument_id
Cleared-instrument c now halts db end k =
    (nat_beq_iff k.instrument.id c.instrument_id).0
      (find_holds (λ i. i.id == c.instrument_id) db.instruments k.instrument k.own_instrument)

-- An order that is placed closes or reduces the account's position in the instrument, or no halt
-- blocks entries of the account, its workspace and the bot.
pub place_order-allowed :
    (c : PlaceOrderCommand) (now : ℕ) (halts : Store) (db : Db) (end : TradeOrder × Db)
    → place_order c now halts db ≡ ok end
    → (is_closing_or_reducing c.side (open_position c.account_id c.instrument_id db)
        || not (entry_blocked_by_halt c.workspace_id c.account_id c.bot_id halts))
      ≡ true
place_order-allowed c now halts db end h =
    let k = place_order-Cleared c now halts db end h in
    subst
      (λ i.
        (is_closing_or_reducing c.side (open_position c.account_id i db)
          || not (entry_blocked_by_halt c.workspace_id c.account_id c.bot_id halts))
        ≡ true)
      (Cleared-instrument c now halts db end k)
      (subst
        (λ a.
          (is_closing_or_reducing c.side (open_position a k.instrument.id db)
            || not (entry_blocked_by_halt c.workspace_id a c.bot_id halts))
          ≡ true)
        (Cleared-account c now halts db end k) k.allowed)

-- Under a halt that blocks entries, an order that does not close or reduce a position is never
-- placed.
pub place_order_blocked :
    (c : PlaceOrderCommand) (now : ℕ) (halts : Store) (db : Db)
    → entry_blocked_by_halt c.workspace_id c.account_id c.bot_id halts ≡ true
    → is_closing_or_reducing c.side (open_position c.account_id c.instrument_id db) ≡ false
    → is_ok (place_order c now halts db) ≡ false
place_order_blocked c now halts db blocked opens = refused (place_order c now halts db) refl
  where
    refused :
        (r : Result OrderFlowError (TradeOrder × Db))
        → place_order c now halts db ≡ r
        → is_ok r ≡ false
    refused (err e) h = refl
    refused (ok end) h =
        let may = place_order-allowed c now halts db end h in absurd (ground (arith, may))

held-blocks :
    (s : HaltScope) (r : String) (halts : Store)
    → IsValid halts
    → 2 ≤ current (find_active_halt s r halts)
    → has_active_halt_at_or_above s entry_halted halts ≡ true
held-blocks s r halts v severe =
    (has_active_halt_at_or_above_iff s entry_halted halts v).1 (r, severe)

-- A halt of the account for any reason blocks its entries.
pub account-blocks :
    (workspace_id account_id : ℕ) (bot_id : Option ℕ) (r : String) (halts : Store)
    → IsValid halts
    → 2 ≤ current (find_active_halt (scope_of workspace_id account (some account_id)) r halts)
    → entry_blocked_by_halt workspace_id account_id bot_id halts ≡ true
unfolding entry_blocked_by_halt
account-blocks workspace_id account_id bot_id r halts v severe =
    rw (held-blocks (scope_of workspace_id account (some account_id)) r halts v severe)

pub bot-blocks :
    (workspace_id account_id bot_id : ℕ) (r : String) (halts : Store)
    → IsValid halts
    → 2 ≤ current (find_active_halt (scope_of workspace_id bot (some bot_id)) r halts)
    → entry_blocked_by_halt workspace_id account_id (some bot_id) halts ≡ true
unfolding entry_blocked_by_halt
bot-blocks workspace_id account_id bot_id r halts v severe =
    let held = held-blocks (scope_of workspace_id bot (some bot_id)) r halts v severe in
    ground (arith, held)

pub workspace-blocks :
    (workspace_id account_id : ℕ) (bot_id : Option ℕ) (r : String) (halts : Store)
    → IsValid halts
    → 2 ≤ current (find_active_halt (scope_of workspace_id workspace none) r halts)
    → entry_blocked_by_halt workspace_id account_id bot_id halts ≡ true
unfolding entry_blocked_by_halt
workspace-blocks workspace_id account_id bot_id r halts v severe =
    let held = held-blocks (scope_of workspace_id workspace none) r halts v severe in
    ground (arith, held)

-- The scopes that an order stands under: its account, the whole workspace, and its bot.
pub data Covers (c : PlaceOrderCommand) (s : HaltScope) : Type 0 where
  the_account :
      s ≡ record {
        workspace_id = c.workspace_id;
        scope_type = account;
        scope_id = some c.account_id;
      }
      → Covers c s
  the_workspace :
      s ≡ record { workspace_id = c.workspace_id; scope_type = workspace; scope_id = none }
      → Covers c s
  the_bot :
      (id : ℕ)
      → c.bot_id ≡ some id
      → s ≡ record { workspace_id = c.workspace_id; scope_type = bot; scope_id = some id }
      → Covers c s

-- An order that opens a position or adds to the one that is open.
abbrev pub Adds : OrderSide → Option TradingPosition → Type 0
Adds side none = Unit
Adds buy (some p) = p.side ≡ long
Adds sell (some p) = p.side ≡ short

Adds-is_closing_or_reducing :
    (side : OrderSide) (held : Option TradingPosition)
    → Adds side held
    → is_closing_or_reducing side held ≡ false
Adds-is_closing_or_reducing side none adds = refl
Adds-is_closing_or_reducing buy (some p) adds = rw adds refl
Adds-is_closing_or_reducing sell (some p) adds = rw adds refl

Covers-blocks :
    (c : PlaceOrderCommand) (s : HaltScope) (r : String) (halts : Store)
    → Covers c s
    → IsValid halts
    → 2 ≤ current (find_active_halt s r halts)
    → entry_blocked_by_halt c.workspace_id c.account_id c.bot_id halts ≡ true
Covers-blocks c s r halts (the_account same) v severe =
    account-blocks c.workspace_id c.account_id c.bot_id r halts v
      (subst (λ x. 2 ≤ current (find_active_halt x r halts)) same severe)
Covers-blocks c s r halts (the_workspace same) v severe =
    workspace-blocks c.workspace_id c.account_id c.bot_id r halts v
      (subst (λ x. 2 ≤ current (find_active_halt x r halts)) same severe)
Covers-blocks c s r halts (the_bot id own same) v severe = rw own (
    bot-blocks c.workspace_id c.account_id id r halts v
      (subst (λ x. 2 ≤ current (find_active_halt x r halts)) same severe))

-- Over a valid halt table, while a halt of the order's account, of its workspace or of its bot is
-- active for some cause at the ban on entries or above, an order that opens a position or adds to
-- one is never placed.
pub place_order_halted :
    (c : PlaceOrderCommand) (now : ℕ) (s : HaltScope) (r : String) (halts : Store) (db : Db)
    → IsValid halts
    → Covers c s
    → 2 ≤ current (find_active_halt s r halts)
    → Adds c.side (open_position c.account_id c.instrument_id db)
    → is_ok (place_order c now halts db) ≡ false
place_order_halted c now s r halts db v covers severe adds =
    place_order_blocked c now halts db (Covers-blocks c s r halts covers v severe)
      (Adds-is_closing_or_reducing c.side (open_position c.account_id c.instrument_id db) adds)
