-- ===== src/Risk/Blocking.antt =====
-- From a verdict of the risk gate to the orders that it keeps out.
use ai_system_trading.Prelude.{
  ℕ, ◌≤◌, ◌≡◌, ◌∙◌, sym, Bool, true, false, ◌&&◌, some, inl, inr, arith, Bool-cases, ok, is_ok,
  ok_injective,
}
use mathlib.Core.Path.{subst}
use ai_system_trading.Halt.{Store, find_active_halt}
use ai_system_trading.Halt.Invariant.{IsValid}
use ai_system_trading.Halt.Escalation.{current}
use ai_system_trading.Bot.Types.{TradingBot}
use ai_system_trading.Trade.Types.{Db, PlaceOrderCommand}
use ai_system_trading.Trade.Position.{open_position}
use ai_system_trading.Trade.Place.{is_closing_or_reducing, entry_blocked_by_halt, place_order}
use ai_system_trading.Trade.Halted.{place_order_blocked, account-blocks, bot-blocks}
use ai_system_trading.Risk.Types.{RiskState}
use ai_system_trading.Risk.Evaluate.{evaluate_conservative_v1}
use ai_system_trading.Risk.Sync.{delay_scope, account_scope, sync_trading_halts}
use ai_system_trading.Risk.Reflected.{reflected}
use ai_system_trading.Risk.Recorded.{delay_kept}
use ai_system_trading.Risk.Halting.{losses_kept, sync_trading_halts_outcome}

severe : (kept : Bool) (before after : ℕ) → kept ≡ false → after ≡ reflected kept before → 2 ≤ after
severe kept before after h e = ground arith

-- After a verdict with a data delay, a daily loss, a weekly loss or a drawdown beyond its hard
-- limit, the bot's entries on the account are blocked.
pub sync_trading_halts-blocks :
    (s : RiskState) (b : TradingBot) (account_id now : ℕ) (st end : Store)
    → IsValid st
    → sync_trading_halts b account_id (evaluate_conservative_v1 s) now st ≡ ok end
    → (delay_kept s && losses_kept s) ≡ false
    → entry_blocked_by_halt b.workspace_id account_id (some b.id) end ≡ true
sync_trading_halts-blocks s b account_id now st end v synced broken =
    let (last, returns, valid, delay, loss) = sync_trading_halts_outcome s b account_id now st v in
    let same : last ≡ end = ok_injective last end (sym returns ∙ synced) in
    subst (λ x. entry_blocked_by_halt b.workspace_id account_id (some b.id) x ≡ true) same
      (elim (Bool-cases (delay_kept s)) [
        | inr late ↦ bot-blocks b.workspace_id account_id b.id "data_delay" last valid (
            severe (delay_kept s) (current (find_active_halt (delay_scope b) "data_delay" st)) _
              late delay)
        | inl fresh ↦
            account-blocks b.workspace_id account_id (some b.id) "daily_loss_dd_limit" last valid (
              severe (losses_kept s)
                (current (
                  find_active_halt (account_scope b.workspace_id account_id) "daily_loss_dd_limit"
                    st))
                _ (ground arith) loss)
      ])

-- After a verdict with a data delay, a daily loss, a weekly loss or a drawdown beyond its hard
-- limit, no order of the bot on the account is placed that does not close or reduce a position.
pub breach_stops_entries :
    (s : RiskState) (b : TradingBot) (now : ℕ) (st end : Store) (c : PlaceOrderCommand) (later : ℕ)
    (db : Db)
    → IsValid st
    → sync_trading_halts b c.account_id (evaluate_conservative_v1 s) now st ≡ ok end
    → (delay_kept s && losses_kept s) ≡ false
    → c.workspace_id ≡ b.workspace_id
    → c.bot_id ≡ some b.id
    → is_closing_or_reducing c.side (open_position c.account_id c.instrument_id db) ≡ false
    → is_ok (place_order c later end db) ≡ false
breach_stops_entries s b now st end c later db v synced broken workspace own opens =
    place_order_blocked c later end db
      (rw (workspace, own) (sync_trading_halts-blocks s b c.account_id now st end v synced broken))
      opens
