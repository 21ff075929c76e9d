-- ===== src/Coverage/Gaps.antt =====
-- `find_internal_gaps` and `is_expected_market_time`.
use Prim.Native.String.{String}
use text.Mathlib.Text.{◌==◌ as str_eq}
use ai_system_trading.Prelude.{
  ℕ, zero, suc, ◌+◌, ◌-◌, Bool, true, false, not, ◌&&◌, List, [], ◌∷◌, ◌++◌, if◌then◌else◌, ltb,
  leb, ◌==◌, nat_equality,
}

pub record GapWindow : Type 0 where
  pub from_time : ℕ
  pub to_time : ℕ
  pub expected_count : ℕ
  pub missing_count : ℕ
  pub reason_code : String

abbrev pub window : ℕ → ℕ → ℕ → GapWindow
window start end count = record {
  from_time = start;
  to_time = end;
  expected_count = count;
  missing_count = count;
  reason_code = "internal_missing_candles";
}

-- `set` and `sorted`: each time once, in ascending order
abbrev insert : ℕ → List ℕ → List ℕ
insert t [] = t ∷ []
insert t (u ∷ us) =
    let rest = insert t us in if t == u then u ∷ us else if ltb t u then t ∷ u ∷ us else u ∷ rest

abbrev sorted_set : List ℕ → List ℕ
sorted_set [] = []
sorted_set (t ∷ ts) = insert t (sorted_set ts)

-- A segment's windows: `start` and `count` of the open segment, and its last missing time.
unfoldable pub segments : ℕ → ℕ → ℕ → ℕ → List ℕ → List GapWindow
segments delta start count prior [] = window start (prior + delta) count ∷ []
segments delta start count prior (m ∷ ms) =
    let longer = segments delta start (count + 1) m ms in
    let apart = segments delta m 1 m ms in
    if not (m == prior + delta) then window start (prior + delta) count ∷ apart else longer

-- `continue` where nothing is missing
unfoldable pub windows : ℕ → List ℕ → List GapWindow
unfolding segments
windows delta [] = []
windows delta (m ∷ ms) = segments delta m 1 m ms

-- `new_york` gives the weekday (Monday is 0) and the hour of a time in America/New_York.
module _ (new_york : ℕ → ℕ × ℕ) where
  abbrev open_at : ℕ × ℕ → Bool
  open_at (weekday, hour) =
      if weekday == 5
      then false
      else if weekday == 4 && leb 17 hour
      then false
      else not (weekday == 6 && ltb hour 17)

  abbrev pub is_expected_market_time : String → ℕ → Bool
  is_expected_market_time exchange_code t =
      if not (str_eq exchange_code "oanda") then true else open_at (new_york t)

  -- The `while` loop, on fuel: `candidate` grows by `delta` up to `current`.
  unfoldable pub missing_from : ℕ → String → ℕ → ℕ → ℕ → List ℕ
  missing_from zero exchange_code delta candidate current = []
  missing_from (suc fuel) exchange_code delta candidate current =
      let rest = missing_from fuel exchange_code delta (candidate + delta) current in
      if ltb candidate current
      then (if is_expected_market_time exchange_code candidate then candidate ∷ rest else rest)
      else []

  unfoldable pub missing_between : String → ℕ → ℕ → ℕ → List ℕ
  unfolding missing_from
  missing_between exchange_code delta previous current =
      missing_from (current - previous) exchange_code delta (previous + delta) current

  -- The `for` loop over neighbours.
  unfoldable pub gaps_of : String → ℕ → List ℕ → List GapWindow
  unfolding missing_between windows
  gaps_of exchange_code delta [] = []
  gaps_of exchange_code delta (t ∷ []) = []
  gaps_of exchange_code delta (t ∷ u ∷ us) =
      windows delta (missing_between exchange_code delta t u)
      ++ gaps_of exchange_code delta (u ∷ us)

  -- `delta` is `timeframe_delta(timeframe)`.
  unfoldable pub find_internal_gaps : List ℕ → ℕ → String → List GapWindow
  unfolding gaps_of
  find_internal_gaps open_times delta exchange_code =
      gaps_of exchange_code delta (sorted_set open_times)
