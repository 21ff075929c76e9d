-- ===== src/Coverage/Exact.antt =====
-- What the gap windows stand for, against the times that are missing.
use Prim.Native.String.{String}
use ai_system_trading.Prelude.{
  ℕ, zero, suc, ◌+◌, ◌*◌, ◌-◌, ◌≤◌, ◌<◌, ◌≡◌, refl, sym, ap, ◌∙◌, Bool, true, false, List, [], ◌∷◌,
  ◌++◌, inl, inr, arith, Bool-cases, ltb, ◌==◌, nat_equality, if◌then◌else◌, nat_beq_iff, lt→ltb,
  ltb→lt,
}
use mathlib.Core.Path.{subst}
use ai_system_trading.Prelude.Rows.{any, All}
use ai_system_trading.Coverage.Gaps.{
  GapWindow, segments, windows, is_expected_market_time, missing_from, missing_between,
}

-- The open times that a window stands for.
abbrev pub times : ℕ → ℕ → ℕ → List ℕ
times delta start zero = []
times delta start (suc n) = start ∷ times delta (start + delta) n

abbrev pub expand : ℕ → List GapWindow → List ℕ
expand delta [] = []
expand delta (g ∷ gs) = times delta g.from_time g.missing_count ++ expand delta gs

append_assoc : (xs ys zs : List ℕ) → (xs ++ ys) ++ zs ≡ xs ++ (ys ++ zs)
append_assoc [] ys zs = refl
append_assoc (x ∷ xs) ys zs = ap (λ r. x ∷ r) (append_assoc xs ys zs)

times_snoc :
    (delta start n : ℕ)
    → times delta start (suc n) ≡ times delta start n ++ (start + n * delta) ∷ []
times_snoc delta start zero =
    let same : start ≡ start + 0 * delta = omega arith in ap (λ t. t ∷ []) same
times_snoc delta start (suc n) =
    let same : start + delta + n * delta ≡ start + suc n * delta = grind arith in
    ap (λ r. start ∷ r)
      (times_snoc delta (start + delta) n ∙ ap (λ t. times delta (start + delta) n ++ t ∷ []) same)

times_more :
    (delta start n : ℕ)
    → times delta start (n + 1) ≡ times delta start n ++ (start + n * delta) ∷ []
times_more delta start n =
    let one_more : n + 1 ≡ suc n = omega arith in
    ap (times delta start) one_more ∙ times_snoc delta start n

segments-expand :
    (delta start n prior : ℕ) (ms : List ℕ)
    → prior + delta ≡ start + n * delta
    → expand delta (segments delta start n prior ms) ≡ times delta start n ++ ms
unfolding segments
segments-expand delta start n prior [] e = refl
segments-expand delta start n prior (m ∷ ms) e = elim (Bool-cases (m == prior + delta)) [
  | inl follows ↦
      let at : m ≡ prior + delta = (nat_beq_iff m (prior + delta)).0 follows in
      let next : m + delta ≡ start + (n + 1) * delta = grind (arith, at, e) in
      rw follows (
        segments-expand delta start (n + 1) m ms next
        ∙ ap (λ r. r ++ ms) (times_more delta start n)
        ∙ append_assoc (times delta start n) ((start + n * delta) ∷ []) ms
        ∙ ap (λ t. times delta start n ++ t ∷ ms) (sym (at ∙ e)))
  | inr breaks ↦
      rw breaks (ap (λ r. times delta start n ++ r) (segments-expand delta m 1 m ms (omega arith)))
]

-- The windows found between two neighbouring candles, read as the open times that they stand for,
-- are the missing times themselves, in order: none is dropped, added or counted twice.
pub windows-expand : (delta : ℕ) (ms : List ℕ) → expand delta (windows delta ms) ≡ ms
unfolding windows
windows-expand delta [] = refl
windows-expand delta (m ∷ ms) = segments-expand delta m 1 m ms (omega arith)

any_kept :
    (t c : ℕ) (b : Bool) (xs : List ℕ)
    → any (λ u. u == t) xs ≡ true
    → any (λ u. u == t) (if b then c ∷ xs else xs) ≡ true
any_kept t c true xs h = ground arith
any_kept t c false xs h = h

module _ (new_york : ℕ → ℕ × ℕ) where
  missing_from_complete :
      (fuel : ℕ) (exchange_code : String) (delta candidate current k : ℕ)
      → 0 < delta
      → current ≤ candidate + fuel
      → candidate + k * delta < current
      → is_expected_market_time new_york exchange_code (candidate + k * delta) ≡ true
      → any
          (λ t. t == candidate + k * delta)
          (missing_from new_york fuel exchange_code delta candidate current)
        ≡ true
  unfolding missing_from
  missing_from_complete zero x delta c current k pos enough before expected =
      absurd (grind (arith, before, enough))
  missing_from_complete (suc fuel) x delta c current zero pos enough before expected =
      let here : c + 0 * delta ≡ c = omega arith in
      let now : is_expected_market_time new_york x c ≡ true =
        subst (λ t. is_expected_market_time new_york x t ≡ true) here expected in
      rw (here, lt→ltb c current (omega (arith, before)), now, (nat_beq_iff c c).1 refl) refl
  missing_from_complete (suc fuel) x delta c current (suc k) pos enough before expected =
      let place : c + delta + k * delta ≡ c + suc k * delta = grind arith in
      let rest =
        missing_from_complete fuel x delta (c + delta) current k pos (omega (arith, pos, enough))
          (omega (arith, place, before))
          (subst (λ t. is_expected_market_time new_york x t ≡ true) (sym place) expected) in
      let found : any (λ t. t == c + suc k * delta)
            (missing_from new_york fuel x delta (c + delta) current)
          ≡ true =
        subst
          (λ t. any (λ u. u == t) (missing_from new_york fuel x delta (c + delta) current) ≡ true)
          place rest in
      rw (lt→ltb c current (omega (arith, before))) (
        any_kept (c + suc k * delta) c (is_expected_market_time new_york x c)
          (missing_from new_york fuel x delta (c + delta) current) found)

  missing_from_sound :
      (fuel : ℕ) (exchange_code : String) (delta previous candidate current : ℕ)
      → previous < candidate
      → All
          (λ t.
            (is_expected_market_time new_york exchange_code t ≡ true)
            × (previous < t)
            × (t < current))
          (missing_from new_york fuel exchange_code delta candidate current)
  unfolding missing_from
  missing_from_sound zero x delta p c current after = tt
  missing_from_sound (suc fuel) x delta p c current after = elim (Bool-cases (ltb c current)) [
    | inr past ↦ rw past tt
    | inl before ↦
        let rest = missing_from_sound fuel x delta p (c + delta) current (omega (arith, after)) in
        elim (Bool-cases (is_expected_market_time new_york x c)) [
          | inl open_now ↦ rw (before, open_now) ((open_now, after, ltb→lt c current before), rest)
          | inr closed ↦ rw (before, closed) rest
        ]
  ]

  -- Between two neighbouring candles, every time on the grid at which the market is expected to
  -- be open is one of those that the gap windows stand for.
  pub gap_windows_complete :
      (exchange_code : String) (delta previous current k : ℕ)
      → 0 < delta
      → previous + delta + k * delta < current
      → is_expected_market_time new_york exchange_code (previous + delta + k * delta) ≡ true
      → any
          (λ t. t == previous + delta + k * delta)
          (expand delta
            (windows delta (missing_between new_york exchange_code delta previous current)))
        ≡ true
  unfolding missing_between
  gap_windows_complete x delta previous current k pos before expected =
      rw (windows-expand delta (missing_between new_york x delta previous current)) (
        missing_from_complete (current - previous) x delta (previous + delta) current k pos
          (omega arith) before expected)

  -- Between two neighbouring candles, the gap windows stand only for times strictly between them
  -- at which the market is expected to be open.
  pub gap_windows_sound :
      (exchange_code : String) (delta previous current : ℕ)
      → 0 < delta
      → All
          (λ t.
            (is_expected_market_time new_york exchange_code t ≡ true)
            × (previous < t)
            × (t < current))
          (expand delta
            (windows delta (missing_between new_york exchange_code delta previous current)))
  unfolding missing_between
  gap_windows_sound x delta previous current pos =
      rw (windows-expand delta (missing_between new_york x delta previous current)) (
        missing_from_sound (current - previous) x delta previous (previous + delta) current
          (omega (arith, pos)))
