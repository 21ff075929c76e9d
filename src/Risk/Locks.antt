-- ===== src/Risk/Locks.antt =====
-- app/trading/application/risk_locks.py: the two measures that lock an account until its Owner
-- releases it.
use Prim.Native.String.{String}
use ai_system_trading.Prelude.{
  ℕ, Bool, true, false, Option, none, some, List, [], ◌∷◌, ◌++◌, if◌then◌else◌, ltb,
}
use ai_system_trading.Money.Decimal.{Decimal, whole, ◌-𝔻◌, ◌/𝔻◌, less, larger, positive}
use ai_system_trading.Halt.{
  entry_halted, HaltScope, HaltEvent, TradingHalt, Store, Activation, find_active_halt,
  activate_or_escalate, last_release_time,
}
use ai_system_trading.Bot.Types.{TradingBot}
use ai_system_trading.Trade.Types.{Instrument, Db}
use ai_system_trading.Trade.Market.{value_account}
use ai_system_trading.Risk.Types.{Rules}
use ai_system_trading.Risk.Queries.{peak_equity, consecutive_losses}
use ai_system_trading.Risk.Sync.{account_scope}
use ai_system_trading.Risk.Wording.{losses_event, drawdown_event}

pub record LockReading : Type 0 where
  pub consecutive_losses : ℕ
  pub peak_drawdown_pct : Option Decimal

abbrev drawdown_from : Option Decimal → Decimal → Option Decimal
drawdown_from none equity = none
drawdown_from (some peak) equity =
    if positive peak then some (larger (whole 0) ((peak -𝔻 equity) /𝔻 peak)) else none

unfoldable pub read_locks :
    (account : ℕ)
    → (consecutive_loss_since peak_since : Option ℕ) → (equity : Decimal) → Db
    → LockReading
unfolding peak_equity consecutive_losses
read_locks account consecutive_loss_since peak_since equity db = record {
  consecutive_losses = consecutive_losses account consecutive_loss_since db;
  peak_drawdown_pct = drawdown_from (peak_equity account peak_since db) equity;
}

abbrev pub lock : HaltScope → String → HaltEvent → Activation
lock scope reason event = record {
  scope = scope;
  reason_code = reason;
  level = entry_halted;
  auto_releasable = false;
  event = some event;
}

-- Whether the call created the halt, and the halts after it.
abbrev pub activate_unless : Option TradingHalt → Activation → Store → Bool × Store
activate_unless (some existing) a st = (false, st)
activate_unless none a st = (true, (activate_or_escalate a st).1)

unfoldable pub activate : HaltScope → String → HaltEvent → Store → Bool × Store
activate scope reason event st =
    activate_unless (find_active_halt scope reason st) (lock scope reason event) st

unfoldable pub lock_losses :
    HaltScope → TradingBot → Rules → LockReading → Store → List String × Store
unfolding activate losses_event
lock_losses scope b rules reading st =
    if ltb rules.consecutive_loss_limit reading.consecutive_losses
    then (let (created, st') =
          activate scope "consecutive_loss_limit"
            (losses_event b reading.consecutive_losses rules.consecutive_loss_limit) st in
        (if created then "consecutive_loss_limit" ∷ [] else [], st'))
    else ([], st)

unfoldable pub lock_drawdown :
    HaltScope → TradingBot → Rules → Option Decimal → Store → List String × Store
unfolding activate drawdown_event
lock_drawdown scope b rules none st = ([], st)
lock_drawdown scope b rules (some pct) st =
    if less rules.peak_drawdown_limit pct
    then (let (created, st') =
          activate scope "peak_drawdown_limit" (drawdown_event b pct rules.peak_drawdown_limit)
            st in
        (if created then "peak_drawdown_limit" ∷ [] else [], st'))
    else ([], st)

-- The reading of `sync_lock_halts`: both measures from their lock's last release.
unfoldable pub reading_of : (account : ℕ) → TradingBot → Instrument → Db → Store → LockReading
unfolding read_locks value_account
reading_of account b instrument db st =
    let scope = account_scope b.workspace_id account in
    read_locks account (last_release_time scope "consecutive_loss_limit" st)
      (last_release_time scope "peak_drawdown_limit" st)
      (value_account account instrument db).equity db

-- The reasons that are locked now and were not before, and the halts after that.
unfoldable pub sync_lock_halts :
    (account : ℕ) → TradingBot → Instrument → Rules → Db → Store → List String × Store
unfolding reading_of lock_losses lock_drawdown
sync_lock_halts account b instrument rules db st =
    let scope = account_scope b.workspace_id account in
    let reading = reading_of account b instrument db st in
    let (first, locked) = lock_losses scope b rules reading st in
    let (second, end) = lock_drawdown scope b rules reading.peak_drawdown_pct locked in
    (first ++ second, end)

-- A measure is beyond the limit at which the risk gate starts to deny entries.
abbrev pub drawdown_over : Option Decimal → Decimal → Bool
drawdown_over none limit = false
drawdown_over (some pct) limit = less limit pct
