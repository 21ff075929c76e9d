-- ===== src/Risk/Halting.antt =====
-- The halts after the synchronisation with a verdict.
use ai_system_trading.Prelude.{
  ℕ, ◌≡◌, ◌≢◌, refl, sym, ◌∙◌, Bool, true, false, ◌&&◌, if◌then◌else◌, arith, Result, ok,
}
use mathlib.Core.Path.{ap}
use ai_system_trading.Halt.{Store, find_active_halt, scope_type_rank}
use ai_system_trading.Halt.Invariant.{IsValid}
use ai_system_trading.Halt.Escalation.{current}
use ai_system_trading.Bot.Types.{TradingBot}
use ai_system_trading.Risk.Types.{RiskState}
use ai_system_trading.Risk.Evaluate.{evaluate_conservative_v1}
use ai_system_trading.Risk.Sync.{
  RiskGateError, all_passed, loss_rules, reflect, delay_scope, account_scope, sync_trading_halts,
}
use ai_system_trading.Risk.Reflected.{reflected, reflect-IsValid, reflect-current, reflect-others}
use ai_system_trading.Risk.Recorded.{
  daily_kept, weekly_kept, drawdown_kept, delay_kept, read_delay, read_daily, read_weekly,
  read_drawdown,
}

abbrev pub losses_kept : RiskState → Bool
losses_kept s = daily_kept s && (weekly_kept s && drawdown_kept s)

-- `and` over the three rules, whichever of them is the first that failed.
read_losses :
    (s : RiskState)
    → all_passed (evaluate_conservative_v1 s).rule_results loss_rules ≡ ok (losses_kept s)
unfolding all_passed
read_losses s =
    rw (read_daily s, read_weekly s, read_drawdown s)
      (in_turn (daily_kept s) (weekly_kept s) (drawdown_kept s))
  where
    in_turn :
        (a b c : Bool)
        → ◌≡◌ {A = Result RiskGateError Bool}
            (if a then (if b then (if c then ok true else ok false) else ok false) else ok false)
            (ok (a && (b && c)))
    in_turn a b c = ground arith

scopes_apart :
    (b : TradingBot) (account_id : ℕ) → delay_scope b ≢ account_scope b.workspace_id account_id
scopes_apart b account_id same = absurd (omega (arith, ap (λ s. scope_type_rank s.scope_type) same))

-- After a verdict on any state the synchronisation always succeeds and keeps the halt table
-- valid. The bot's halt for a data delay is relaxed by one step if the delay is within its hard
-- limit, else it is at least at the ban on entries; the account's halt for losses likewise, with
-- the daily loss, the weekly loss and the drawdown all within their hard limits.
pub sync_trading_halts_outcome :
    (s : RiskState) (b : TradingBot) (account_id now : ℕ) (st : Store)
    → IsValid st
    → let delay = find_active_halt (delay_scope b) "data_delay" in
      let loss = find_active_halt (account_scope b.workspace_id account_id) "daily_loss_dd_limit" in
      (end : Store) × (sync_trading_halts b account_id (evaluate_conservative_v1 s) now st ≡ ok end)
      × IsValid end
      × (current (delay end) ≡ reflected (delay_kept s) (current (delay st)))
      × (current (loss end) ≡ reflected (losses_kept s) (current (loss st)))
unfolding sync_trading_halts
sync_trading_halts_outcome s b account_id now st v =
    let bots = delay_scope b in
    let accounts = account_scope b.workspace_id account_id in
    let delayed = reflect bots "data_delay" (delay_kept s) now st in
    let valid = reflect-IsValid bots "data_delay" (delay_kept s) now st v in
    let apart = scopes_apart b account_id in
    (
      reflect accounts "daily_loss_dd_limit" (losses_kept s) now delayed,
      rw (read_delay s, read_losses s) refl,
      reflect-IsValid accounts "daily_loss_dd_limit" (losses_kept s) now delayed valid,
      ap current (
            reflect-others bots accounts "data_delay" "daily_loss_dd_limit" (losses_kept s) now
              delayed valid (λ e. apart e.0))
          ∙ reflect-current bots "data_delay" (delay_kept s) now st v,
      reflect-current accounts "daily_loss_dd_limit" (losses_kept s) now delayed valid
          ∙ ap (λ h. reflected (losses_kept s) (current h))
              (reflect-others accounts bots "daily_loss_dd_limit" "data_delay" (delay_kept s) now st
                v (λ e. apart (sym e.0))),
    )
