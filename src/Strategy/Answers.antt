-- ===== src/Strategy/Answers.antt =====
-- The signal of a resolved strategy never runs out of its series.
use Prim.Native.String.{String}
use ai_system_trading.Prelude.{
  ℕ, zero, suc, ◌+◌, ◌-◌, ◌<◌, ◌≤◌, max, ◌≡◌, refl, Bool, true, false, Option, none, some, is_some,
  List, [], ◌∷◌, arith, inl, inr, Bool-cases, ltb, Result, ok, err, is_ok, ◌>>=◌, require, Returns,
  >>=-Returns, Returns-ok, nat_beq,
}
use ai_system_trading.Prelude.Rows.{length}
use ai_system_trading.Trade.Types.{Candle}
use ai_system_trading.Risk.Queries.{first_of}
use ai_system_trading.Bot.Strategy.{
  Definition, Json, null, composite, flag, int, minus, words, get, ExitPolicy, LiveStrategy,
  Unresolvable, unknown_kind, as_exit_policy, is_donchian, as_positive, resolve_live_strategy,
}
use ai_system_trading.Strategy.Donchian.{
  SeriesError, drop, element, highest_high, lowest_low, closes_above, closes_below, and_not, choose,
  breaks_above, breaks_below, generate_donchian_breakout_signal,
}

element_inside : (n : ℕ) (cs : List Candle) → n < length cs → is_some (element n cs) ≡ true
element_inside n [] inside = absurd (omega arith)
element_inside zero (c ∷ cs) inside = refl
element_inside (suc n) (c ∷ cs) inside = element_inside n cs (omega arith)

-- A window of at least one bar has a highest high and a lowest low.
highest_of_window :
    (n start : ℕ) (cs : List Candle)
    → 0 < n
    → start < length cs
    → is_some (highest_high (first_of n (drop start cs))) ≡ true
highest_of_window n start [] some_bars inside = absurd (omega arith)
highest_of_window zero start (c ∷ cs) some_bars inside = absurd (omega arith)
highest_of_window (suc n) zero (c ∷ cs) some_bars inside = refl
highest_of_window (suc n) (suc start) (c ∷ cs) some_bars inside =
    highest_of_window (suc n) start cs some_bars (omega arith)

lowest_of_window :
    (n start : ℕ) (cs : List Candle)
    → 0 < n
    → start < length cs
    → is_some (lowest_low (first_of n (drop start cs))) ≡ true
lowest_of_window n start [] some_bars inside = absurd (omega arith)
lowest_of_window zero start (c ∷ cs) some_bars inside = absurd (omega arith)
lowest_of_window (suc n) zero (c ∷ cs) some_bars inside = refl
lowest_of_window (suc n) (suc start) (c ∷ cs) some_bars inside =
    lowest_of_window (suc n) start cs some_bars (omega arith)

closes_above_known :
    (c : Option Candle) (top : _)
    → is_some c ≡ true
    → is_some top ≡ true
    → is_ok (closes_above c top) ≡ true
closes_above_known none top h k = cc
closes_above_known (some c) none h k = cc
closes_above_known (some c) (some top) h k = refl

closes_below_known :
    (c : Option Candle) (bottom : _)
    → is_some c ≡ true
    → is_some bottom ≡ true
    → is_ok (closes_below c bottom) ≡ true
closes_below_known none bottom h k = cc
closes_below_known (some c) none h k = cc
closes_below_known (some c) (some bottom) h k = refl

and_not_known :
    (now before : Result SeriesError Bool)
    → is_ok now ≡ true
    → is_ok before ≡ true
    → is_ok (and_not now before) ≡ true
and_not_known (err e) before h k = cc
and_not_known (ok false) before h k = refl
and_not_known (ok true) (err e) h k = cc
and_not_known (ok true) (ok b) h k = refl

choose_known :
    (up down : Result SeriesError Bool)
    → is_ok up ≡ true
    → is_ok down ≡ true
    → is_ok (choose up down) ≡ true
choose_known (err e) down h k = cc
choose_known (ok true) down h k = refl
choose_known (ok false) (err e) h k = cc
choose_known (ok false) (ok true) h k = refl
choose_known (ok false) (ok false) h k = refl

module _ (cs : List Candle) (index period : ℕ) (length_of_window : 0 < period)
    (enough : period ≤ index) (inside : index < length cs) where
  breaks_above_known : is_ok (breaks_above cs index period) ≡ true
  unfolding breaks_above
  breaks_above_known =
      closes_above_known _ _ (element_inside index cs inside) (
        highest_of_window (index - (index - period)) (index - period) cs (omega arith)
          (omega arith))

  breaks_below_known : is_ok (breaks_below cs index period) ≡ true
  unfolding breaks_below
  breaks_below_known =
      closes_below_known _ _ (element_inside index cs inside) (
        lowest_of_window (index - (index - period)) (index - period) cs (omega arith) (omega arith))

generates :
    (entry_period exit_period : ℕ) (cs : List Candle)
    → 0 < entry_period
    → 0 < exit_period
    → is_ok (generate_donchian_breakout_signal entry_period exit_period cs) ≡ true
unfolding generate_donchian_breakout_signal
generates entry_period exit_period cs enters leaves =
    elim (Bool-cases (ltb (length cs) (max entry_period exit_period + 2))) [
      | inl short ↦ rw short refl
      | inr enough ↦
          let long : max entry_period exit_period + 2 ≤ length cs = ground (arith, enough) in
          let last = length cs - 1 in
          rw enough (
            choose_known _ _
              (and_not_known _ _
                (breaks_above_known cs last entry_period enters (omega (arith, long))
                  (omega (arith, long)))
                (breaks_above_known cs (last - 1) entry_period enters (omega (arith, long))
                  (omega (arith, long))))
              (and_not_known _ _
                (breaks_below_known cs last exit_period leaves (omega (arith, long))
                  (omega (arith, long)))
                (breaks_below_known cs (last - 1) exit_period leaves (omega (arith, long))
                  (omega (arith, long)))))
    ]

-- Both periods of a strategy that was resolved are positive.
abbrev Periods : LiveStrategy → Type 0
Periods s = (0 < s.entry_period) × (0 < s.exit_period)

as_positive-Positive : (key : String) (v : Option Json) → Returns (λ n. 0 < n) (as_positive key v)
as_positive-Positive key none = tt
as_positive-Positive key (some null) = tt
as_positive-Positive key (some composite) = tt
as_positive-Positive key (some (flag b)) = tt
as_positive-Positive key (some (minus n)) = tt
as_positive-Positive key (some (words w)) = tt
as_positive-Positive key (some (int n)) = elim (Bool-cases (nat_beq n 0)) [
  | inl zero_period ↦ rw zero_period tt
  | inr some_period ↦ rw some_period (ground (arith, some_period))
]

positive_period : (key : String) (v : Option Json) (n : ℕ) → as_positive key v ≡ ok n → 0 < n
positive_period key v n = Returns-ok (λ n. 0 < n) (as_positive key v) n (as_positive-Positive key v)

-- `resolve_live_strategy` once the exit policy and the kind are read
abbrev read_rest : ExitPolicy → Definition → Result Unresolvable LiveStrategy
read_rest policy d = as_positive "entry_period" (get d "entry_period") >>= λ entry.
    as_positive "exit_period" (get d "exit_period") >>= λ leave.
    ok (record { entry_period = entry; exit_period = leave; exit_policy = policy })

read_rest-Periods : (policy : ExitPolicy) (d : Definition) → Returns Periods (read_rest policy d)
read_rest-Periods policy d =
    >>=-Returns Periods (as_positive "entry_period" (get d "entry_period")) _ λ entry enters.
      >>=-Returns Periods (as_positive "exit_period" (get d "exit_period"))
        (λ leave. ok (record { entry_period = entry; exit_period = leave; exit_policy = policy }))
        λ leave leaves. (
          positive_period "entry_period" (get d "entry_period") entry enters,
          positive_period "exit_period" (get d "exit_period") leave leaves,
        )

resolve_live_strategy-Periods : (d : Option Definition) → Returns Periods (resolve_live_strategy d)
unfolding resolve_live_strategy
resolve_live_strategy-Periods none = tt
resolve_live_strategy-Periods (some d) =
    >>=-Returns Periods (as_exit_policy (get d "exit_policy"))
      (λ policy. require (is_donchian (get d "kind")) unknown_kind >>= λ _. read_rest policy d)
      λ policy _.
        >>=-Returns Periods (require (is_donchian (get d "kind")) unknown_kind)
          (λ _. read_rest policy d) λ _ _. read_rest-Periods policy d

-- The generator of a strategy that was resolved answers on every series.
pub resolved_signal_answers :
    (d : Option Definition) (s : LiveStrategy) (cs : List Candle)
    → resolve_live_strategy d ≡ ok s
    → is_ok (generate_donchian_breakout_signal s.entry_period s.exit_period cs) ≡ true
resolved_signal_answers d s cs h =
    let (enters, leaves) =
      Returns-ok Periods (resolve_live_strategy d) s (resolve_live_strategy-Periods d) h in
    generates s.entry_period s.exit_period cs enters leaves
