-- ===== src/Trade/Holdings.antt =====
-- The invariant of the position table, and that a fill keeps it.
use ai_system_trading.Prelude.{
  ℕ, ◌+◌, ◌≤◌, ◌<◌, ◌≡◌, true, false, none, some, List, [], ◌∷◌, ◌++◌, inl, inr, arith, Bool-cases,
  is_some, nat_equality,
}
use mathlib.Core.Path.{subst}
use ai_system_trading.Prelude.Rows.{
  find, count, All, All-append, All-find, find_holds, count-append, find-none-count,
}
use ai_system_trading.Prelude.Table.{
  save, one, UniqueIds, All-save, UniqueIds-save, UniqueIds-append, count-save,
}
use ai_system_trading.Trade.Types.{is_long, TradingPosition}
use ai_system_trading.Trade.Position.{open_for}

-- An open position has an entry price, and is short only where shorts are allowed.
pub record Sound (Shortable : ℕ → Type 0) (p : TradingPosition) : Type 0 where
  pub priced : p.is_open ≡ true → is_some p.average_entry_price ≡ true
  pub long_only : p.is_open ≡ true → is_long p.side ≡ false → Shortable p.account_id
  pub stamped : p.is_open ≡ false → is_some p.closed_at ≡ true

-- One open position for an account and an instrument at most.
pub record Holdings (Shortable : ℕ → Type 0) (fresh : ℕ) (ps : List TradingPosition) : Type 0 where
  pub unique : UniqueIds (λ p. p.id) ps
  pub used : All (λ p. p.id < fresh) ps
  pub single : (account instrument : ℕ) → count (open_for account instrument) ps ≤ 1
  pub sound : All (Sound Shortable) ps

pub All-weaken :
    (n m : ℕ) (ps : List TradingPosition) → n ≤ m → All (λ p. p.id < n) ps → All (λ p. p.id < m) ps
All-weaken n m [] le all = tt
All-weaken n m (p ∷ ps) le all = (omega (arith, all.0), All-weaken n m ps le all.1)

pub later-Holdings :
    (S : ℕ → Type 0) (n m : ℕ) (ps : List TradingPosition)
    → n ≤ m
    → Holdings S n ps
    → Holdings S m ps
later-Holdings S n m ps le v = record {
  unique = v.unique;
  used = All-weaken n m ps le v.used;
  single = v.single;
  sound = v.sound;
}

open_for-key :
    (account instrument : ℕ) (p : TradingPosition)
    → open_for account instrument p ≡ true
    → (p.account_id ≡ account) × (p.instrument_id ≡ instrument) × (p.is_open ≡ true)
open_for-key account instrument p h = ground arith

-- A new open position, where there was none.
pub append-Holdings :
    (S : ℕ → Type 0) (n : ℕ) (p : TradingPosition) (ps : List TradingPosition)
    → p.id ≡ n
    → find (open_for p.account_id p.instrument_id) ps ≡ none
    → Sound S p
    → Holdings S n ps
    → Holdings S (n + 1) (ps ++ p ∷ [])
append-Holdings S n p ps same absent sound v = record {
  unique = UniqueIds-append (λ q. q.id) p n ps v.used (omega (arith, same)) v.unique;
  used =
      All-append (λ q. q.id < n + 1) ps (p ∷ []) (All-weaken n (n + 1) ps (omega arith) v.used)
        (omega (arith, same), tt);
  single = λ account instrument. few account instrument;
  sound = All-append (Sound S) ps (p ∷ []) v.sound (sound, tt);
}
  where
    alone :
        (account instrument : ℕ)
        → open_for account instrument p ≡ true
        → count (open_for account instrument) ps ≡ 0
    alone account instrument own =
        let (here, there, _) = open_for-key account instrument p own in
        find-none-count (open_for account instrument) ps (
          subst (λ a. find (open_for a instrument) ps ≡ none) here
            (subst (λ i. find (open_for p.account_id i) ps ≡ none) there absent))

    few : (account instrument : ℕ) → count (open_for account instrument) (ps ++ p ∷ []) ≤ 1
    few account instrument =
        let sum = count-append (open_for account instrument) ps (p ∷ []) in
        elim (Bool-cases (open_for account instrument p)) [
          | inl own ↦ ground (arith, sum, alone account instrument own)
          | inr other ↦ ground (arith, sum, v.single account instrument)
        ]

-- The open position of an account and an instrument, changed by a fill.
pub save-Holdings :
    (S : ℕ → Type 0) (n account instrument : ℕ) (p k : TradingPosition) (ps : List TradingPosition)
    → find (open_for account instrument) ps ≡ some k
    → p.id ≡ k.id
    → p.account_id ≡ k.account_id
    → p.instrument_id ≡ k.instrument_id
    → Sound S p
    → Holdings S n ps
    → Holdings S n (save (λ x. x.id) p ps)
save-Holdings S n account instrument p k ps found same same_account same_instrument sound v =
    let below : k.id < n =
      All-find (λ q. q.id < n) (open_for account instrument) ps k v.used found in
    let held =
      open_for-key account instrument k (find_holds (open_for account instrument) ps k found) in
    record {
      unique = UniqueIds-save (λ x. x.id) p ps v.unique;
      used = All-save (λ x. x.id) (λ q. q.id < n) p ps (omega (arith, below, same)) v.used;
      single = λ a i.
          let sum =
            count-save (λ x. x.id) (open_for account instrument) (open_for a i) p k ps v.unique
              found same in
          let no_more : one (open_for a i p) ≤ one (open_for a i k) =
            rw (same_account, same_instrument, held.2) (ground arith) in
          omega (arith, sum, no_more, v.single a i);
      sound = All-save (λ x. x.id) (Sound S) p ps sound v.sound;
    }
