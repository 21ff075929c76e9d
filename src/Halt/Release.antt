-- ===== src/Halt/Release.antt =====
-- The Owner's releases: `release_lock`, `release_emergency_stop`, and the two endpoints of
-- app/api/routes/trading_halts.py that call them.
use Prim.Native.String.{String}
use ai_system_trading.Prelude.{
  string_equality, Result, ok, err, ℕ, Bool, false, ◌&&◌, ◌||◌, Option, none, some, if◌then◌else◌,
  ◌==◌, nat_equality,
}
use ai_system_trading.Prelude.Rows.{find}
use ai_system_trading.Prelude.Table.{save}
use ai_system_trading.Halt.Types.{
  released, is_active, TradingHalt, Store, TradingHaltError, not_emergency_stopped,
}
use ai_system_trading.Halt.Transitions.{is_emergency, deescalate_one_step}

abbrev pub mark_released : ℕ → ℕ → TradingHalt → TradingHalt
mark_released owner now h = record h {
  status = released;
  released_at = some now;
  released_by = some owner;
}

unfoldable pub release_lock : TradingHalt → ℕ → ℕ → Store → TradingHalt × Store
release_lock h owner now st =
    let h' = mark_released owner now h in (h', record st { halts = save (λ k. k.id) h' st.halts })

unfoldable pub release_emergency_stop :
    TradingHalt → ℕ → ℕ → Store → Result TradingHaltError (TradingHalt × Store)
release_emergency_stop h owner now st =
    if is_emergency h.level
    then ok (
        let h' = mark_released owner now h in
        (h', record st { halts = save (λ k. k.id) h' st.halts }))
    else err not_emergency_stopped

-- The HTTP errors of the endpoints: 404, 422, 500 and 409.
pub data HttpError : Type 0 where
  not_found unprocessable unsupported conflict : HttpError

-- `_get_halt`: only an active halt of the workspace is found.
unfoldable pub get_halt : ℕ → ℕ → Store → Option TradingHalt
get_halt workspace_id halt_id st =
    find (λ h. h.id == halt_id && (h.workspace_id == workspace_id && is_active h.status)) st.halts

-- `halt.reason_code in LOCK_REASONS` (app/trading/application/risk_locks.py)
abbrev pub is_lock_reason : String → Bool
is_lock_reason r = r == "consecutive_loss_limit" || r == "peak_drawdown_limit"

-- `assert updated is not None`
abbrev pub asserted : Option TradingHalt × Store → Result HttpError (TradingHalt × Store)
asserted (none, st) = err unsupported
asserted (some h, st) = ok (h, st)

unfoldable pub release_scoped : TradingHalt → ℕ → ℕ → Store → Result HttpError (TradingHalt × Store)
unfolding release_lock deescalate_one_step
release_scoped h owner now st =
    if is_lock_reason h.reason_code
    then ok (release_lock h owner now st)
    else asserted (
        deescalate_one_step
          (record {
            workspace_id = h.workspace_id;
            scope_type = h.scope_type;
            scope_id = h.scope_id;
          })
          h.reason_code now (some owner) st)

unfoldable pub release_found : TradingHalt → ℕ → ℕ → Store → Result HttpError (TradingHalt × Store)
unfolding release_scoped
release_found h owner now st =
    if is_emergency h.level
    then err unprocessable
    else elim h.scope_id [ none ↦ err unsupported | some _ ↦ release_scoped h owner now st ]

-- POST /{halt_id}/release
unfoldable pub release_trading_halt : ℕ → ℕ → ℕ → ℕ → Store → Result HttpError (TradingHalt × Store)
unfolding get_halt release_found
release_trading_halt workspace_id halt_id owner now st = elim (get_halt workspace_id halt_id st) [
  | none ↦ err not_found
  | some h ↦ release_found h owner now st
]

-- POST /{halt_id}/emergency-release. `disagrees` says whether the ledger reconciliation of an
-- account still finds something.
module _ (disagrees : ℕ → Bool) where
  abbrev pub unreconciled : TradingHalt → Bool
  unreconciled h = elim h.scope_id [
    | none ↦ false
    | some account ↦ h.reason_code == "ledger_mismatch" && disagrees account
  ]

  abbrev pub as_http :
      Result TradingHaltError (TradingHalt × Store) → Result HttpError (TradingHalt × Store)
  as_http (ok r) = ok r
  as_http (err e) = err unprocessable

  unfoldable pub emergency_release_trading_halt :
      ℕ → ℕ → ℕ → ℕ → Store → Result HttpError (TradingHalt × Store)
  unfolding get_halt release_emergency_stop
  emergency_release_trading_halt workspace_id halt_id owner now st =
      elim (get_halt workspace_id halt_id st) [
        | none ↦ err not_found
        | some h ↦
            if unreconciled h then err conflict else as_http (release_emergency_stop h owner now st)
      ]
