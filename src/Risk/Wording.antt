-- ===== src/Risk/Wording.antt =====
-- What the lock halts of app/trading/application/risk_locks.py say.
use Prim.Native.String.{String, ◌++◌}
use ai_system_trading.Prelude.Decimal.{decimal}
use ai_system_trading.Prelude.{ℕ, ◌*◌, ◌/◌, ◌%◌, ◌^◌, none, [], ◌∷◌}
use ai_system_trading.Money.Decimal.{Decimal, whole, ◌*𝔻◌, half_even}
use ai_system_trading.Events.{words, uuid, number, amount, Payload}
use ai_system_trading.Halt.{HaltEvent}
use ai_system_trading.Bot.Types.{TradingBot}

-- `f"{share * 100:.1f}"` and `f"{share * 100:.0f}"` of a share that is not negative
unfoldable pub percent_tenths : Decimal → String
unfolding half_even
percent_tenths share =
    let p = share *𝔻 whole 100 in
    let tenths = half_even (p.coefficient * 10) (10 ^ p.scale) in
    decimal (tenths / 10) ++ "." ++ decimal (tenths % 10)

unfoldable pub percent_whole : Decimal → String
unfolding half_even
percent_whole share = let p = share *𝔻 whole 100 in decimal (half_even p.coefficient (10 ^ p.scale))

abbrev by_bot : TradingBot → Payload
by_bot b = ("bot_id", uuid b.id) ∷ ("bot_name", words b.name) ∷ []

unfoldable pub losses_event : TradingBot → (losses limit : ℕ) → HaltEvent
losses_event b losses limit = record {
  event_type = "trading_halt.consecutive_loss_limit";
  message =
      decimal losses ++ "連敗し、上限(" ++ decimal limit ++ "連敗)を超えたため、新規の取引を止めました。Ownerが解除するまで再開しません";
  payload = ("consecutive_losses", number losses) ∷ ("limit", number limit) ∷ by_bot b;
  source_type = "risk_gate";
  source_id = none;
  correlation_id = none;
}

unfoldable pub drawdown_event : TradingBot → (pct limit : Decimal) → HaltEvent
unfolding percent_tenths percent_whole
drawdown_event b pct limit = record {
  event_type = "trading_halt.peak_drawdown_limit";
  message =
      "資産が最高値から"
      ++ percent_tenths pct
      ++ "%下がり、上限("
      ++ percent_whole limit
      ++ "%)を超えたため、新規の取引を止めました。Ownerが解除するまで再開しません";
  payload = ("peak_drawdown_pct", amount pct) ∷ ("limit", amount limit) ∷ by_bot b;
  source_type = "risk_gate";
  source_id = none;
  correlation_id = none;
}
