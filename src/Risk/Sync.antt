-- ===== src/Risk/Sync.antt =====
-- `_sync_trading_halts`: the verdict's data delay and losses become trading halts, or relax them.
use Prim.Native.String.{String}
use ai_system_trading.Prelude.{
  ℕ, Bool, true, false, Option, none, some, List, [], ◌∷◌, if◌then◌else◌, nat_beq, Result, ok, err,
  ◌>>=◌,
}
use ai_system_trading.Prelude.Rows.{find}
use ai_system_trading.Halt.{
  ScopeType, entry_halted, HaltScope, Store, Activation, activate_or_escalate, deescalate_one_step,
}
use ai_system_trading.Bot.Types.{TradingBot}
use ai_system_trading.Risk.Types.{
  Rule, rule_rank, RuleResult, PureRiskResult, daily_loss, weekly_loss, peak_drawdown, data_delay,
}

-- The errors of this module: its own, and a rule that is not in the dictionary.
pub data RiskGateError : Type 0 where
  invalid_signal_action market_price_unavailable unsupported_exchange missing_rule : RiskGateError

abbrev pub for_rule : Rule → RuleResult → Bool
for_rule rule r = nat_beq (rule_rank r.rule) (rule_rank rule)

abbrev pub passed_of : Option RuleResult → Result RiskGateError Bool
passed_of none = err missing_rule
passed_of (some r) = ok r.passed

unfoldable pub rule_passed : List RuleResult → Rule → Result RiskGateError Bool
rule_passed results rule = passed_of (find (for_rule rule) results)

-- `a and b and c`, which reads no rule after one that failed
unfoldable pub all_passed : List RuleResult → List Rule → Result RiskGateError Bool
unfolding rule_passed
all_passed results [] = ok true
all_passed results (rule ∷ rules) =
    let rest = all_passed results rules in
    rule_passed results rule >>= λ passed. if passed then rest else ok false

abbrev pub halting : HaltScope → String → Activation
halting scope reason = record {
  scope = scope;
  reason_code = reason;
  level = entry_halted;
  auto_releasable = true;
  event = none;
}

-- One of the two causes: relaxed by a step if its rules passed, else active.
unfoldable pub reflect : HaltScope → String → Bool → ℕ → Store → Store
reflect scope reason passed now st =
    if passed
    then (deescalate_one_step scope reason now none st).1
    else (activate_or_escalate (halting scope reason) st).1

abbrev pub delay_scope : TradingBot → HaltScope
delay_scope b = record {
  workspace_id = b.workspace_id;
  scope_type = ScopeType.bot;
  scope_id = some b.id;
}

-- `account_scope` of risk_locks.py, which this function writes out
abbrev pub account_scope : (workspace_id account_id : ℕ) → HaltScope
account_scope workspace_id account_id = record {
  workspace_id = workspace_id;
  scope_type = ScopeType.account;
  scope_id = some account_id;
}

abbrev pub loss_rules : List Rule
loss_rules = daily_loss ∷ weekly_loss ∷ peak_drawdown ∷ []

unfoldable pub sync_trading_halts :
    TradingBot → (account_id : ℕ) → PureRiskResult → ℕ → Store → Result RiskGateError Store
unfolding rule_passed all_passed reflect
sync_trading_halts b account_id result now st = do
  fresh ← rule_passed result.rule_results data_delay
  let delayed = reflect (delay_scope b) "data_delay" fresh now st
  kept ← all_passed result.rule_results loss_rules
  ok (reflect (account_scope b.workspace_id account_id) "daily_loss_dd_limit" kept now delayed)
