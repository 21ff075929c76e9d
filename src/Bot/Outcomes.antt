-- ===== src/Bot/Outcomes.antt =====
-- The outcome of each command, by the desired state that it finds: the lifecycle's transition
-- table, errors included.
use ai_system_trading.Prelude.{
  ℕ, ◌≡◌, refl, ap, some, List, arith, inl, inr, Option-cases, Result, ok, err, ◌>>=◌, map_err,
  false,
}
use ai_system_trading.Prelude.Rows.{All, find, find-none-count}
use ai_system_trading.Prelude.Table.{save}
use ai_system_trading.Bot.Types.{
  DesiredState, ActualState, RunStatus, TradingBot, BotRun, TradeOrder, Db, is_running, is_paused,
  LifecycleError, already_in_target_state, invalid_state, StartupError, startup_validation_failed,
}
use ai_system_trading.Bot.Startup.{Env, validate_bot_startup}
use ai_system_trading.Bot.Orders.{open_order, cancel_open_orders}
use ai_system_trading.Bot.Commands.{
  run_of, mark_paused, mark_resumed, pause_from, pause_bot, resume_from, resume_bot,
}
use ai_system_trading.Bot.Cancelling.{Cancelled, cancel_open_orders-Cancelled}
use ai_system_trading.Bot.Lockstep.{running_runs, paused_runs, IsValid, Stored, Stored-InStep}
use ai_system_trading.Bot.Transitions.{
  Moves, Continues, change-Moves, found_test, live_of_running, live_of_paused,
}

-- No order of the account is in a cancellable state.
abbrev pub NoOpenOrders : ℕ → Result LifecycleError (BotRun × Db) → Type 0
NoOpenOrders account (err e) = ⊥
NoOpenOrders account (ok (r, db)) = All (λ x. open_order account x ≡ false) db.orders

abbrev pub PauseOutcome :
    ℕ → TradingBot → Db → DesiredState → Result LifecycleError (BotRun × Db) → Type 0
PauseOutcome now b db DesiredState.paused res = res ≡ err already_in_target_state
PauseOutcome now b db DesiredState.stopped res = res ≡ err invalid_state
PauseOutcome now b db DesiredState.running res =
    Moves DesiredState.paused ActualState.paused now b res
    × NoOpenOrders b.account_id res
    × Continues is_running RunStatus.paused now b db res

pause_found :
    (now : ℕ) (b : TradingBot) (r : BotRun) (db : Db)
    (c : Result LifecycleError (List TradeOrder × Db))
    → IsValid db
    → Stored db b
    → find (run_of b.id is_running) db.runs ≡ some r
    → Cancelled b.account_id db c
    → PauseOutcome now b db DesiredState.running (c >>= λ x. ok (mark_paused now b r x.0 x.1))
unfolding mark_paused
pause_found now b r db (err e) v stored found h = absurd h
pause_found now b r db (ok (os, db')) v stored found (kept, orders, closed) = (
  change-Moves b is_running r _ DesiredState.paused ActualState.paused now _ db db' v stored kept
      orders found (live_of_running r.status (found_test b.id is_running db.runs r found).1) refl
      refl refl refl refl,
  closed,
  (r, found, refl, ap (save (λ x. x.id) _) kept.runs),
)

pause_from_outcome :
    (d : DesiredState) (now : ℕ) (b : TradingBot) (db : Db)
    → b.desired_state ≡ d
    → IsValid db
    → Stored db b
    → PauseOutcome now b db d (pause_from d now b db)
unfolding pause_from
pause_from_outcome DesiredState.paused now b db e v stored = refl
pause_from_outcome DesiredState.stopped now b db e v stored = refl
pause_from_outcome DesiredState.running now b db e v stored =
    elim (Option-cases (find (run_of b.id is_running) db.runs)) [
      | inl absent ↦ absurd (
          omega (
            arith,
            find-none-count (run_of b.id is_running) db.runs absent,
            (Stored-InStep db b v stored).running,
            ap running_runs e,
          ))
      | inr (r, found) ↦ rw found (
          pause_found now b r db (cancel_open_orders b "bot_paused" now db) v stored found
            (cancel_open_orders-Cancelled b "bot_paused" now db v.unique_orders))
    ]

-- `pause` on a paused bot is refused as already there, on a stopped one as invalid, with nothing
-- changed. On a running bot it always succeeds: its one running run goes on as paused, the
-- same in all but its status and its heartbeat, its
-- account has no open order left, and all bots and runs stay in lockstep.
pub pause_bot_outcome :
    (now : ℕ) (b : TradingBot) (db : Db)
    → IsValid db
    → Stored db b
    → PauseOutcome now b db b.desired_state (pause_bot now b db)
unfolding pause_bot
pause_bot_outcome now b db v stored = pause_from_outcome b.desired_state now b db refl v stored

-- `resume` checks the start-up conditions first: it fails with the first failed check and changes
-- nothing, or the bot runs, and its paused run goes on as running.
abbrev CheckedContinues :
    Env → TradingBot → Db → Result StartupError Unit → Result LifecycleError (BotRun × Db) → Type 0
CheckedContinues env b db (err e) res = res ≡ err (startup_validation_failed e)
CheckedContinues env b db (ok _) res =
    Moves DesiredState.running ActualState.running env.now b res
    × Continues is_paused RunStatus.running env.now b db res

abbrev pub ResumeOutcome :
    Env → TradingBot → Db → DesiredState → Result LifecycleError (BotRun × Db) → Type 0
ResumeOutcome env b db DesiredState.running res = res ≡ err already_in_target_state
ResumeOutcome env b db DesiredState.stopped res = res ≡ err invalid_state
ResumeOutcome env b db DesiredState.paused res =
    CheckedContinues env b db (validate_bot_startup env b) res

resume_found :
    (env : Env) (b : TradingBot) (r : BotRun) (db : Db) (c : Result StartupError Unit)
    → IsValid db
    → Stored db b
    → find (run_of b.id is_paused) db.runs ≡ some r
    → CheckedContinues env b db c
        (map_err startup_validation_failed c >>= λ _. ok (mark_resumed env.now b r db))
unfolding mark_resumed
resume_found env b r db (err e) v stored found = refl
resume_found env b r db (ok _) v stored found = (
  change-Moves b is_paused r _ DesiredState.running ActualState.running env.now _ db db v stored
      (record { bots = refl; runs = refl; log = refl; positions = refl }) v.unique_orders found
      (live_of_paused r.status (found_test b.id is_paused db.runs r found).1) refl refl refl refl
      refl,
  (r, found, refl, refl),
)

resume_from_outcome :
    (d : DesiredState) (env : Env) (b : TradingBot) (db : Db)
    → b.desired_state ≡ d
    → IsValid db
    → Stored db b
    → ResumeOutcome env b db d (resume_from d env b db)
unfolding resume_from
resume_from_outcome DesiredState.running env b db e v stored = refl
resume_from_outcome DesiredState.stopped env b db e v stored = refl
resume_from_outcome DesiredState.paused env b db e v stored =
    elim (Option-cases (find (run_of b.id is_paused) db.runs)) [
      | inl absent ↦ absurd (
          omega (
            arith,
            find-none-count (run_of b.id is_paused) db.runs absent,
            (Stored-InStep db b v stored).paused,
            ap paused_runs e,
          ))
      | inr (r, found) ↦
          rw found (resume_found env b r db (validate_bot_startup env b) v stored found)
    ]

-- `resume` on a running bot is refused as already there, on a stopped one as invalid. On a
-- paused bot it reports the first failed start-up check, or continues the same paused run, which
-- changes in its status and its heartbeat only; the run is always found, and all bots and runs stay in lockstep.
pub resume_bot_outcome :
    (env : Env) (b : TradingBot) (db : Db)
    → IsValid db
    → Stored db b
    → ResumeOutcome env b db b.desired_state (resume_bot env b db)
unfolding resume_bot
resume_bot_outcome env b db v stored = resume_from_outcome b.desired_state env b db refl v stored
