-- ===== src/Risk/Approved.antt =====
-- What an approval by `evaluate_signal` stands for.
use ai_system_trading.Prelude.{
  ℕ, ◌≡◌, ◌≢◌, refl, sym, ◌∙◌, false, Option, none, some, inl, inr, arith, Bool-cases, Result, ok,
  err, Returns, >>=-Returns, Returns-ok,
}
use mathlib.Core.Path.{subst}
use ai_system_trading.Money.Decimal.{Decimal, whole, at_most}
use ai_system_trading.Halt.{Store}
use ai_system_trading.Bot.Startup.{timeframe_seconds}
use ai_system_trading.Trade.Types.{Candle, Db}
use ai_system_trading.Trade.Market.{value_account}
use ai_system_trading.Risk.Types.{RiskState, deny, PureRiskResult}
use ai_system_trading.Risk.Sizing.{sized_quantity}
use ai_system_trading.Risk.Checks.{Findings}
use ai_system_trading.Risk.Evaluate.{judge_all, conclude, evaluate_conservative_v1}
use ai_system_trading.Risk.Limits.{Permitted}
use ai_system_trading.Risk.Approval.{approved_iff_Permitted}
use ai_system_trading.Risk.Sync.{
  RiskGateError, market_price_unavailable, missing_rule, sync_trading_halts,
}
use ai_system_trading.Risk.Queries.{
  recent_final_candles, last_of, stop_distance, fee_buffer_per_unit, spread,
}
use ai_system_trading.Risk.Signals.{
  Question, atr_history_candles, tradable, known, gather, decide, Evaluation, record_verdict,
  record_no_equity, judge_valued, evaluate_signal,
}

-- The state that was judged, with what it was gathered from, and that it keeps every limit.
pub record Approved (q : Question) (halts : Store) (db : Db) (e : Evaluation) (quantity : Decimal)
    : Type 0 where
  pub candle : Candle
  pub stop : Decimal
  pub fee : Decimal
  pub bar_seconds : ℕ
  pub latest :
      last_of (recent_final_candles q.instrument.id q.bot.timeframe atr_history_candles db)
      ≡ some candle
  pub stopped :
      stop_distance q.exchange_code q.instrument
        (recent_final_candles q.instrument.id q.bot.timeframe atr_history_candles db)
        (spread q.exchange_code q.instrument.id db)
        q.rules
      ≡ ok stop
  pub charged : fee_buffer_per_unit q.exchange_code candle.close q.rules ≡ ok fee
  pub bar : known missing_rule (timeframe_seconds q.bot.timeframe) ≡ ok bar_seconds
  pub solvent : at_most (value_account q.account_id q.instrument db).equity (whole 0) ≡ false
  pub permitted :
      Permitted
        (gather q halts db candle stop fee (value_account q.account_id q.instrument db) bar_seconds)
  pub same_quantity :
      quantity
      ≡ sized_quantity (
          gather q halts db candle stop fee
            (value_account q.account_id q.instrument db)
            bar_seconds)
  pub recorded : e.decision.outcome ≢ deny

-- An approved quantity is the sized one, and its outcome no denial.
conclude-quantity :
    (s : RiskState) (f : Findings) (quantity : Decimal)
    → (conclude s f).approved_quantity ≡ some quantity
    → (quantity ≡ sized_quantity s) × ((conclude s f).outcome ≢ deny)
unfolding conclude
conclude-quantity s f quantity h = ground arith

approves :
    (s : RiskState) (quantity : Decimal)
    → (evaluate_conservative_v1 s).approved_quantity ≡ some quantity
    → (quantity ≡ sized_quantity s) × ((evaluate_conservative_v1 s).outcome ≢ deny)
unfolding evaluate_conservative_v1
approves s quantity h = conclude-quantity s (judge_all s) quantity h

abbrev Meant : Question → Store → Db → Evaluation → Type 0
Meant q halts db e =
    (quantity : Decimal) → e.approved_quantity ≡ some quantity → Approved q halts db e quantity

recorded_outcome :
    (q : Question) (result : PureRiskResult) (halts : Store) (db : Db)
    → Returns
        (λ e.
          (e.decision.outcome ≡ result.outcome) × (e.approved_quantity ≡ result.approved_quantity))
        (record_verdict q result halts db)
unfolding record_verdict decide
recorded_outcome q result halts db =
    >>=-Returns
      (λ e.
        (e.decision.outcome ≡ result.outcome) × (e.approved_quantity ≡ result.approved_quantity))
      (sync_trading_halts q.bot q.account_id result q.now halts) _ (λ synced _. (refl, refl))

judge_valued-Meant :
    (q : Question) (halts : Store) (db : Db) (candle : Candle) (stop fee : Decimal)
    → last_of (recent_final_candles q.instrument.id q.bot.timeframe atr_history_candles db)
      ≡ some candle
    → stop_distance q.exchange_code q.instrument
        (recent_final_candles q.instrument.id q.bot.timeframe atr_history_candles db)
        (spread q.exchange_code q.instrument.id db)
        q.rules
      ≡ ok stop
    → fee_buffer_per_unit q.exchange_code candle.close q.rules ≡ ok fee
    → Returns
        (Meant q halts db)
        (judge_valued q halts db candle stop fee (value_account q.account_id q.instrument db))
unfolding judge_valued record_no_equity
judge_valued-Meant q halts db candle stop fee latest stopped charged =
    let value = value_account q.account_id q.instrument db in
    elim (Bool-cases (at_most value.equity (whole 0))) [
      | inl broke ↦ rw broke (λ quantity h. cc)
      | inr solvent ↦ rw solvent (
          >>=-Returns (Meant q halts db) (known missing_rule (timeframe_seconds q.bot.timeframe)) _
            λ bar_seconds bar.
              let s = gather q halts db candle stop fee value bar_seconds in
              meant s bar_seconds refl bar solvent
                (record_verdict q (evaluate_conservative_v1 s) halts db)
                (recorded_outcome q (evaluate_conservative_v1 s) halts db))
    ]
  where
    meant :
        (s : RiskState) (bar_seconds : ℕ)
        → s
          ≡ gather q halts db candle stop fee
              (value_account q.account_id q.instrument db)
              bar_seconds
        → known missing_rule (timeframe_seconds q.bot.timeframe) ≡ ok bar_seconds
        → at_most (value_account q.account_id q.instrument db).equity (whole 0) ≡ false
        → (r : Result RiskGateError Evaluation)
        → Returns
            (λ e.
              (e.decision.outcome ≡ (evaluate_conservative_v1 s).outcome)
              × (e.approved_quantity ≡ (evaluate_conservative_v1 s).approved_quantity))
            r
        → Returns (Meant q halts db) r
    meant s bar_seconds same bar solvent (err e) recorded = tt
    meant s bar_seconds same bar solvent (ok e) recorded = λ quantity h.
        let (sized, granted) = approves s quantity (sym recorded.1 ∙ h) in
        record {
          candle = candle;
          stop = stop;
          fee = fee;
          bar_seconds = bar_seconds;
          latest = latest;
          stopped = stopped;
          charged = charged;
          bar = bar;
          solvent = solvent;
          permitted = subst Permitted same ((approved_iff_Permitted s).0 granted);
          same_quantity = subst (λ x. quantity ≡ sized_quantity x) same sized;
          recorded = λ denied. granted (sym recorded.0 ∙ denied);
        }

found_candle :
    (candles : Option Candle) (candle : Candle)
    → ◌≡◌ {A = Result RiskGateError Candle} (known market_price_unavailable candles) (ok candle)
    → candles ≡ some candle
found_candle none candle h = cc
found_candle (some c) candle h = cc

evaluate_signal-Meant :
    (q : Question) (halts : Store) (db : Db)
    → Returns (Meant q halts db) (evaluate_signal q halts db)
unfolding evaluate_signal
evaluate_signal-Meant q halts db =
    let candles = recent_final_candles q.instrument.id q.bot.timeframe atr_history_candles db in
    >>=-Returns (Meant q halts db) (tradable q.signal.action) _ λ _ _.
      >>=-Returns (Meant q halts db) (known market_price_unavailable (last_of candles)) _
        λ candle here.
          >>=-Returns (Meant q halts db)
            (stop_distance q.exchange_code q.instrument candles
              (spread q.exchange_code q.instrument.id db) q.rules)
            _
            λ stop stopped.
              >>=-Returns (Meant q halts db)
                (fee_buffer_per_unit q.exchange_code candle.close q.rules) _
                λ fee charged.
                  judge_valued-Meant q halts db candle stop fee
                    (found_candle (last_of candles) candle here) stopped charged

-- When `evaluate_signal` approves a quantity, the account has equity left, the state gathered at
-- the latest final candle keeps every limit, initial and hard, the quantity is the one sized from
-- that state, and the decision that is recorded is no denial.
pub evaluate_signal-Approved :
    (q : Question) (halts : Store) (db : Db) (e : Evaluation) (quantity : Decimal)
    → evaluate_signal q halts db ≡ ok e
    → e.approved_quantity ≡ some quantity
    → Approved q halts db e quantity
evaluate_signal-Approved q halts db e quantity h =
    Returns-ok (Meant q halts db) (evaluate_signal q halts db) e (evaluate_signal-Meant q halts db)
      h quantity
