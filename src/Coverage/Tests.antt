-- ===== src/Coverage/Tests.antt =====
-- The theorems on gaps at a concrete series, and runs of the search.
use ai_system_trading.Prelude.{
  ℕ, ◌+◌, ◌*◌, ◌<◌, ◌≡◌, refl, true, List, [], ◌∷◌, ◌==◌, nat_equality, arith,
}
use ai_system_trading.Prelude.Rows.{any, All}
use ai_system_trading.Coverage.Gaps.{
  window, segments, windows, missing_from, missing_between, gaps_of, find_internal_gaps,
  is_expected_market_time,
}
use ai_system_trading.Coverage.Exact.{
  expand, windows-expand, gap_windows_complete, gap_windows_sound,
}

-- A clock that always reads Wednesday noon.
abbrev wednesday : ℕ → ℕ × ℕ
wednesday t = (2, 12)

abbrev ten : List ℕ
ten = 10 ∷ 20 ∷ 40 ∷ []

windows-expand_example : expand 10 (windows 10 ten) ≡ ten
windows-expand_example = windows-expand 10 ten

gap_windows_complete_example :
    any
      (λ t. t == 100 + 10 + 2 * 10)
      (expand 10 (windows 10 (missing_between wednesday "oanda" 10 100 150)))
    ≡ true
gap_windows_complete_example =
    gap_windows_complete wednesday "oanda" 10 100 150 2 (omega arith) (omega arith) refl

gap_windows_sound_example :
    All
      (λ t. (is_expected_market_time wednesday "oanda" t ≡ true) × (100 < t) × (t < 150))
      (expand 10 (windows 10 (missing_between wednesday "oanda" 10 100 150)))
gap_windows_sound_example = gap_windows_sound wednesday "oanda" 10 100 150 (omega arith)

-- Two candles are missing between 100 and 130, and one between 130 and 150; the series is given
-- out of order and with a duplicate.
find_internal_gaps_runs :
    find_internal_gaps wednesday (150 ∷ 100 ∷ 130 ∷ 100 ∷ []) 10 "oanda"
    ≡ window 110 130 2 ∷ window 140 150 1 ∷ []
unfolding find_internal_gaps gaps_of windows segments missing_between missing_from
find_internal_gaps_runs = refl
