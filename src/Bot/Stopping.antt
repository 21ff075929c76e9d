-- ===== src/Bot/Stopping.antt =====
-- The outcome of `stop_bot`.
use Prim.Native.String.{String}
use ai_system_trading.Prelude.{
  ℕ, ◌≡◌, refl, Option, some, List, [], ◌∷◌, arith, inl, inr, Option-cases, Result, ok, err, ◌>>=◌,
  ◌≤◌, ◌+◌,
}
use ai_system_trading.Prelude.Rows.{find, count, find-none-count}
use ai_system_trading.Bot.Types.{
  DesiredState, ActualState, TradingBot, BotRun, TradeOrder, Db, is_running, is_paused, is_live,
  LifecycleError, already_in_target_state,
}
use ai_system_trading.Bot.Orders.{cancel_open_orders}
use ai_system_trading.Bot.Commands.{run_of, mark_stopped, stop_live, stop_from, stop_bot}
use ai_system_trading.Bot.Cancelling.{Cancelled, cancel_open_orders-Cancelled}
use ai_system_trading.Bot.Lockstep.{running_runs, paused_runs, IsValid, Stored, Stored-InStep}
use ai_system_trading.Bot.Transitions.{Moves, change-Moves, found_test}
use ai_system_trading.Bot.Outcomes.{NoOpenOrders}

abbrev pub Stops : ℕ → TradingBot → Result LifecycleError (BotRun × Db) → Type 0
Stops now b res =
    Moves DesiredState.stopped ActualState.stopped now b res × NoOpenOrders b.account_id res

abbrev pub StopOutcome :
    ℕ → TradingBot → DesiredState → Result LifecycleError (BotRun × Db) → Type 0
StopOutcome now b DesiredState.stopped res = res ≡ err already_in_target_state
StopOutcome now b DesiredState.running res = Stops now b res
StopOutcome now b DesiredState.paused res = Stops now b res

stop_found :
    (reason : Option String) (now : ℕ) (b : TradingBot) (r : BotRun) (db : Db)
    (c : Result LifecycleError (List TradeOrder × Db))
    → IsValid db
    → Stored db b
    → find (run_of b.id is_live) db.runs ≡ some r
    → Cancelled b.account_id db c
    → Stops now b (c >>= λ x. ok (mark_stopped reason now b r x.0 x.1))
unfolding mark_stopped
stop_found reason now b r db (err e) v stored found h = absurd h
stop_found reason now b r db (ok (os, db')) v stored found (kept, orders, closed) = (
  change-Moves b is_live r _ DesiredState.stopped ActualState.stopped now _ db db' v stored kept
      orders found (found_test b.id is_live db.runs r found).1 refl refl refl refl refl,
  closed,
)

-- With no live run there is no running and no paused one.
pub count-live :
    (i : ℕ) (runs : List BotRun)
    → count (run_of i is_live) runs
      ≡ count (run_of i is_running) runs + count (run_of i is_paused) runs
count-live i [] = refl
count-live i (r ∷ runs) = ground (arith, count-live i runs)

stop_live_outcome :
    (reason : Option String) (now : ℕ) (b : TradingBot) (db : Db)
    → 1 ≤ running_runs b.desired_state + paused_runs b.desired_state
    → IsValid db
    → Stored db b
    → Stops now b (stop_live reason now b db)
unfolding stop_live
stop_live_outcome reason now b db active v stored =
    let st = Stored-InStep db b v stored in
    elim (Option-cases (find (run_of b.id is_live) db.runs)) [
      | inl absent ↦ absurd (
          omega (
            arith,
            find-none-count (run_of b.id is_live) db.runs absent,
            count-live b.id db.runs,
            st.running,
            st.paused,
          ))
      | inr (r, found) ↦ rw found (
          stop_found reason now b r db (cancel_open_orders b "bot_stopped" now db) v stored found
            (cancel_open_orders-Cancelled b "bot_stopped" now db v.unique_orders))
    ]

stop_from_outcome :
    (d : DesiredState) (reason : Option String) (now : ℕ) (b : TradingBot) (db : Db)
    → b.desired_state ≡ d
    → IsValid db
    → Stored db b
    → StopOutcome now b d (stop_from d reason now b db)
unfolding stop_from
stop_from_outcome DesiredState.stopped reason now b db e v stored = refl
stop_from_outcome DesiredState.running reason now b db e v stored =
    stop_live_outcome reason now b db (ground (arith, e)) v stored
stop_from_outcome DesiredState.paused reason now b db e v stored =
    stop_live_outcome reason now b db (ground (arith, e)) v stored

-- `stop` on a stopped bot is refused as already there. On a running or paused bot it always
-- succeeds, with any reason: its live run ends, its account has no open order left, and all bots
-- and runs stay in lockstep.
pub stop_bot_outcome :
    (reason : Option String) (now : ℕ) (b : TradingBot) (db : Db)
    → IsValid db
    → Stored db b
    → StopOutcome now b b.desired_state (stop_bot reason now b db)
unfolding stop_bot
stop_bot_outcome reason now b db v stored =
    stop_from_outcome b.desired_state reason now b db refl v stored
