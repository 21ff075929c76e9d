-- ===== src/Bot/Strategy.antt =====
-- app/trading/application/live_strategies.py: which stored definitions a bot can run. The
-- signal generator itself (`generate_donchian_breakout_signal`) is not called at start-up.
use Prim.Native.String.{String}
use text.Mathlib.Text.{◌==◌ as str_eq}
use ai_system_trading.Prelude.{
  ℕ, Bool, false, Option, none, some, List, [], ◌∷◌, if◌then◌else◌, Result, ok, err, ◌>>=◌, ◌>>◌,
  require, nat_beq,
}

-- A value of the definition's JSON: `minus n` is -(n + 1).
pub data Json : Type 0 where
  null composite : Json
  flag : Bool → Json
  int : ℕ → Json
  minus : ℕ → Json
  words : String → Json

-- The definition's dictionary.
abbrev pub Definition : Type 0
Definition = List (String × Json)

abbrev pub get : Definition → String → Option Json
get [] k = none
get ((j, v) ∷ d) k = if str_eq j k then some v else get d k

pub data ExitPolicy : Type 0 where
  signal stop_loss : ExitPolicy

-- The messages of `UnresolvableStrategyError`, by what they say.
pub data Unresolvable : Type 0 where
  not_positive : String → Unresolvable
  unsupported_exit_policy unknown_kind missing : Unresolvable

pub record LiveStrategy : Type 0 where
  pub entry_period : ℕ
  pub exit_period : ℕ
  pub exit_policy : ExitPolicy

-- `isinstance(value, int) and not isinstance(value, bool) and value > 0`
abbrev pub as_positive : String → Option Json → Result Unresolvable ℕ
as_positive k none = err (not_positive k)
as_positive k (some (int n)) = if nat_beq n 0 then err (not_positive k) else ok n
as_positive k (some _) = err (not_positive k)

positive_int : Definition → String → Result Unresolvable ℕ
positive_int d key = as_positive key (get d key)

abbrev pub as_exit_policy : Option Json → Result Unresolvable ExitPolicy
as_exit_policy none = ok signal
as_exit_policy (some (words w)) =
    if str_eq w "signal"
    then ok signal
    else if str_eq w "stop_loss"
    then ok stop_loss
    else err unsupported_exit_policy
as_exit_policy (some _) = err unsupported_exit_policy

exit_policy : Definition → Result Unresolvable ExitPolicy
exit_policy d = as_exit_policy (get d "exit_policy")

abbrev pub is_donchian : Option Json → Bool
is_donchian (some (words w)) = str_eq w "donchian_breakout"
is_donchian _ = false

-- The body for a definition that is a mapping; `None` or any other value is `missing`.
resolve_definition : Definition → Result Unresolvable LiveStrategy
unfolding positive_int exit_policy
resolve_definition d = do
  policy ← exit_policy d
  require (is_donchian (get d "kind")) unknown_kind
  entry ← positive_int d "entry_period"
  leave ← positive_int d "exit_period"
  ok (record { entry_period = entry; exit_period = leave; exit_policy = policy })

unfoldable pub resolve_live_strategy : Option Definition → Result Unresolvable LiveStrategy
unfolding resolve_definition
resolve_live_strategy none = err missing
resolve_live_strategy (some d) = resolve_definition d
