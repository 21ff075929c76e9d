-- ===== src/Bot/Startup.antt =====
-- `validate_bot_startup`: the checks that `start_bot` and `resume_bot` run.
use Prim.Native.String.{String}
use text.Mathlib.Text.{◌==◌ as str_eq}
use ai_system_trading.Prelude.{
  ℕ, ◌+◌, ◌*◌, Bool, true, false, not, ◌&&◌, ◌||◌, Option, none, some, List, [], ◌∷◌, if◌then◌else◌,
  Result, ok, err, ◌>>◌, require, is_some, leb,
}
use ai_system_trading.Halt.{
  HaltScope, Store, bot, workspace, emergency_stopped, has_active_halt_at_or_above,
}
use ai_system_trading.Bot.Types.{
  TradingBot, StartupError, secrets, trading_permission, account, emergency_stop, strategy,
  risk_profile, instrument, data_freshness, unknown_timeframe,
}
use ai_system_trading.Bot.Strategy.{Definition, resolve_live_strategy}

pub record ExchangeConnection : Type 0 where
  pub exchange_id : ℕ
  pub secret_ref : Option String
  pub status : String

pub record TradingAccount : Type 0 where
  pub status : String

pub record StrategyVersion : Type 0 where
  pub lifecycle_status : String
  pub definition : Option Definition

pub record RiskProfileVersion : Type 0 where
  pub status : String

-- What the checks read: rows by primary key (`db.get`), the code of an instrument's exchange, the
-- close time of the latest final candle, the halts, and the clock. Times are in microseconds.
pub record Env : Type 0 where
  pub connection : ℕ → Option ExchangeConnection
  pub account : ℕ → Option TradingAccount
  pub strategy_version : ℕ → Option StrategyVersion
  pub risk_profile_version : ℕ → Option RiskProfileVersion
  pub instrument_exchange_code : ℕ → Option String
  pub exchange_code : ℕ → Option String
  pub latest_final_close : ℕ → String → Option ℕ
  pub halts : Store
  pub now : ℕ

-- `TIMEFRAME_SECONDS` (app/exchanges/types.py); another key is a `KeyError`
abbrev pub timeframe_seconds : String → Option ℕ
timeframe_seconds tf =
    if str_eq tf "1m"
    then some 60
    else if str_eq tf "5m"
    then some 300
    else if str_eq tf "15m"
    then some 900
    else if str_eq tf "30m"
    then some 1800
    else if str_eq tf "1h"
    then some 3600
    else if str_eq tf "4h"
    then some 14400
    else if str_eq tf "1d"
    then some 86400
    else none

abbrev pub max_data_delay_bars : ℕ
max_data_delay_bars = 5

abbrev connection_ok : Option ExchangeConnection → Bool
connection_ok none = false
connection_ok (some c) = is_some c.secret_ref && str_eq c.status "verified"

abbrev account_ok : Option TradingAccount → Bool
account_ok none = false
account_ok (some a) = str_eq a.status "active"

abbrev lifecycle_ok : Option StrategyVersion → Bool
lifecycle_ok none = false
lifecycle_ok (some v) =
    str_eq v.lifecycle_status "paper_approved" || str_eq v.lifecycle_status "live_approved"

abbrev resolves : Option StrategyVersion → Bool
resolves none = false
resolves (some v) = elim (resolve_live_strategy v.definition) [ ok _ ↦ true | err _ ↦ false ]

abbrev risk_profile_ok : Option RiskProfileVersion → Bool
risk_profile_ok none = false
risk_profile_ok (some v) = str_eq v.status "approved"

abbrev is_code : Option String → String → Bool
is_code none code = false
is_code (some c) code = str_eq c code

-- The exchange of the connection, when the instrument is a `binance_public` one.
abbrev instrument_ok : Env → TradingBot → Bool
instrument_ok env b =
    if is_code (env.instrument_exchange_code b.instrument_id) "binance_public"
    then elim (env.connection b.connection_id) [
      | none ↦ false
      | some c ↦ is_code (env.exchange_code c.exchange_id) "binance"
    ]
    else true

-- `(now - close_time).total_seconds() / bar_seconds > _MAX_DATA_DELAY_BARS`, multiplied out
-- over microseconds
abbrev fresh_enough : ℕ → ℕ → Option ℕ → Result StartupError Unit
fresh_enough now close none = err unknown_timeframe
fresh_enough now close (some seconds) =
    require (leb now (close + max_data_delay_bars * (seconds * 1000000))) data_freshness

check_freshness : ℕ → String → Option ℕ → Result StartupError Unit
check_freshness now tf none = err data_freshness
check_freshness now tf (some close) = fresh_enough now close (timeframe_seconds tf)

abbrev pub halt_scopes : TradingBot → List HaltScope
halt_scopes b =
    record { workspace_id = b.workspace_id; scope_type = bot; scope_id = some b.id }
    ∷ record { workspace_id = b.workspace_id; scope_type = workspace; scope_id = none }
    ∷ []

abbrev pub any_emergency : Store → List HaltScope → Bool
any_emergency st [] = false
any_emergency st (s ∷ ss) =
    has_active_halt_at_or_above s emergency_stopped st || any_emergency st ss

unfoldable pub validate_bot_startup : Env → TradingBot → Result StartupError Unit
unfolding check_freshness
validate_bot_startup env b = do
  require (connection_ok (env.connection b.connection_id)) secrets
  require (str_eq b.execution_mode "paper") trading_permission
  require (account_ok (env.account b.account_id)) account
  require (not (any_emergency env.halts (halt_scopes b))) emergency_stop
  require (lifecycle_ok (env.strategy_version b.strategy_version_id)) strategy
  require (resolves (env.strategy_version b.strategy_version_id)) strategy
  require (risk_profile_ok (env.risk_profile_version b.risk_profile_version_id)) risk_profile
  require (instrument_ok env b) instrument
  check_freshness env.now b.timeframe (env.latest_final_close b.instrument_id b.timeframe)
