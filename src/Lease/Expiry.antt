-- ===== src/Lease/Expiry.antt =====
-- `recover_expired`: the expired leases that no other transaction has locked, oldest first.
use ai_system_trading.Prelude.{
  ℕ, zero, suc, Bool, false, ◌&&◌, Option, none, some, List, [], ◌∷◌, if◌then◌else◌, Result, ok,
  err, ◌>>=◌, map_err, leb,
}
use ai_system_trading.Prelude.Rows.{select, length}
use ai_system_trading.Lease.Types.{FeedKey, MarketDataLease, Db, Notices, RuntimeError}
use ai_system_trading.Lease.Recover.{recover}

abbrev pub take {ℓ} : {A : Type ℓ} → ℕ → List A → List A
take zero xs = []
take (suc n) [] = []
take (suc n) (x ∷ xs) = x ∷ take n xs

abbrev pub has_expired : ℕ → MarketDataLease → Bool
has_expired now l = elim l.lease_until [ none ↦ false | some u ↦ leb u now ]

abbrev pub ends_before : Option ℕ → Option ℕ → Bool
ends_before (some a) (some b) = leb a b
ends_before _ _ = false

-- `ORDER BY lease_until`, by insertion
abbrev pub insert : MarketDataLease → List MarketDataLease → List MarketDataLease
insert l [] = l ∷ []
insert l (k ∷ ks) = if ends_before l.lease_until k.lease_until then l ∷ k ∷ ks else k ∷ insert l ks

abbrev pub by_end : List MarketDataLease → List MarketDataLease
by_end [] = []
by_end (l ∷ ls) = insert l (by_end ls)

-- The loop; an error leaves the transaction with nothing written.
unfoldable pub recover_each : Notices → ℕ → List MarketDataLease → Db → Result RuntimeError Db
unfolding recover
recover_each n now [] db = ok db
recover_each n now (l ∷ ls) db = recover n now l db >>= recover_each n now ls

pub data ExpiryError : Type 0 where
  limit_out_of_range : ExpiryError
  stopped_by : RuntimeError → ExpiryError

-- The rows chosen; `free` says which of them were not locked.
unfoldable pub chosen : (FeedKey → Bool) → ℕ → ℕ → Db → List MarketDataLease
chosen free now limit db =
    take limit (by_end (select (λ l. has_expired now l && free l.feed) db.leases))

unfoldable pub recover_expired :
    Notices → (FeedKey → Bool) → ℕ → ℕ → Db → Result ExpiryError (ℕ × Db)
unfolding chosen recover_each
recover_expired n free now limit db =
    if leb 1 limit && leb limit 1000
    then map_err stopped_by (
        recover_each n now (chosen free now limit db) db >>= λ db'.
        ok (length (chosen free now limit db), db'))
    else err limit_out_of_range
