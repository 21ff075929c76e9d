-- ===== src/Strategy/Tests.antt =====
-- The theorems on the signals at concrete series.
use ai_system_trading.Prelude.{ℕ, ◌+◌, ◌≡◌, ◌≢◌, refl, true, some, List, [], ◌∷◌, ok, is_ok}
use ai_system_trading.Money.Decimal.{whole, less, larger, smaller}
use ai_system_trading.Trade.Types.{Candle, buy, hold}
use ai_system_trading.Bot.Strategy.{
  int, words, signal, Definition, LiveStrategy, resolve_live_strategy,
}
use ai_system_trading.Strategy.Donchian.{generate_donchian_breakout_signal}
use ai_system_trading.Strategy.Windows.{without_last}
use ai_system_trading.Strategy.Events.{signal_starts_breakout}
use ai_system_trading.Strategy.Answers.{resolved_signal_answers}

abbrev bar : (at high low close : ℕ) → Candle
bar at high low close = record {
  instrument_id = 5;
  timeframe = "1h";
  open_time = at;
  close_time = at + 1;
  high = whole high;
  low = whole low;
  close = whole close;
  is_final = true;
}

-- The last close is the first above the highs of the two bars before it.
abbrev breakout : List Candle
breakout = bar 1 10 8 9 ∷ bar 2 11 9 10 ∷ bar 3 12 9 10 ∷ bar 4 15 11 14 ∷ []

signal_starts_breakout_example :
    generate_donchian_breakout_signal 2 1 (without_last breakout) ≢ ok buy
unfolding generate_donchian_breakout_signal less larger smaller
signal_starts_breakout_example = signal_starts_breakout 2 1 breakout buy (λ h. cc) refl

-- One bar later the close is still outside the channel, and the signal is to hold.
stays_outside :
    generate_donchian_breakout_signal 2 1
      (bar 1 10 8 9 ∷ bar 2 11 9 10 ∷ bar 3 12 9 10 ∷ bar 4 15 11 14 ∷ bar 5 17 14 16 ∷ [])
    ≡ ok hold
unfolding generate_donchian_breakout_signal less larger smaller
stays_outside = refl

abbrev stored : Definition
stored = ("kind", words "donchian_breakout") ∷ ("entry_period", int 2) ∷ ("exit_period", int 1) ∷ []

abbrev two_and_one : LiveStrategy
two_and_one = record { entry_period = 2; exit_period = 1; exit_policy = signal }

resolved_signal_answers_example : is_ok (generate_donchian_breakout_signal 2 1 breakout) ≡ true
unfolding resolve_live_strategy
resolved_signal_answers_example = resolved_signal_answers (some stored) two_and_one breakout refl
