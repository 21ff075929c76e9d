-- ===== src/Bot/Failing.antt =====
-- The outcome of `fail_bot`.
use Prim.Native.String.{String}
use ai_system_trading.Prelude.{
  ℕ, ◌≡◌, refl, Option, none, some, List, [], ◌∷◌, arith, ◌<◌, ◌+◌, Result, ok, err, ◌>>=◌, false,
  nat_beq, nat_beq_iff,
}
use ai_system_trading.Prelude.Rows.{All, find, count, find-none-count}
use ai_system_trading.Prelude.Table.{UniqueIds, UniqueIds-save, find-save, All-transfer}
use ai_system_trading.Bot.Types.{
  DesiredState, ActualState, TradingBot, BotRun, TradeOrder, Db, is_live, LifecycleError,
}
use ai_system_trading.Bot.Orders.{open_order, cancel_open_orders}
use ai_system_trading.Bot.Commands.{run_of, with_state, save_bot}
use ai_system_trading.Bot.Failure.{failed_run, end_run, report_failure, mark_failed, fail_bot}
use ai_system_trading.Bot.Cancelling.{Kept, Cancelled, cancel_open_orders-Cancelled}
use ai_system_trading.Bot.Lockstep.{InStep, IsValid, Stored, Stored-InStep}
use ai_system_trading.Bot.Transitions.{change-Moves, found_test}
use ai_system_trading.Bot.Stopping.{count-live}

-- The bot is stopped and marked failed, no live run of it is left, its account has no open order,
-- and all bots and runs are in lockstep.
abbrev pub Failed : ℕ → TradingBot → Result LifecycleError Db → Type 0
Failed now b (err e) = ⊥
Failed now b (ok db) =
    IsValid db
    × Stored db (with_state DesiredState.stopped ActualState.failed now b)
    × (count (run_of b.id is_live) db.runs ≡ 0)
    × All (λ x. open_order b.account_id x ≡ false) db.orders

All-below : (n : ℕ) (rs : List BotRun) → All (λ r. r.id < n) rs → All (λ r. r.id < n + 2) rs
All-below n [] all = tt
All-below n (r ∷ rs) all = (omega arith, All-below n rs all.1)

report_failure-IsValid :
    (b : TradingBot) (error_type : String) (failures : ℕ) (orders : List TradeOrder) (db : Db)
    → IsValid db
    → IsValid (report_failure b error_type failures orders db)
unfolding report_failure
report_failure-IsValid b error_type failures orders db v = record {
  unique_bots = v.unique_bots;
  unique_runs = v.unique_runs;
  unique_orders = v.unique_orders;
  used = All-below db.log.fresh db.runs v.used;
  in_step = v.in_step;
}

-- With no live run the bot alone changes.
absent-IsValid :
    (now : ℕ) (b : TradingBot) (db db' : Db)
    → IsValid db
    → Stored db b
    → Kept db db'
    → UniqueIds (λ o. o.id) db'.orders
    → find (run_of b.id is_live) db.runs ≡ none
    → IsValid (save_bot (with_state DesiredState.stopped ActualState.failed now b) db')
absent-IsValid now b db db' v stored kept orders absent =
    let b' = with_state DesiredState.stopped ActualState.failed now b in
    let no_live = find-none-count (run_of b.id is_live) db.runs absent in
    let split = count-live b.id db.runs in
    record {
      unique_bots = rw kept.bots (UniqueIds-save (λ x. x.id) b' db.bots v.unique_bots);
      unique_runs = rw kept.runs v.unique_runs;
      unique_orders = orders;
      used = rw (kept.runs, kept.log) v.used;
      in_step =
          rw (kept.runs, kept.bots)
            (All-transfer (λ x. x.id) (InStep db.runs) (InStep db.runs) b' db.bots v.unique_bots
              v.in_step
              (record {
                running = omega (arith, no_live, split);
                paused = omega (arith, no_live, split);
                actual = refl;
              })
              (λ x apart st. st));
    }

absent-Stored :
    (now : ℕ) (b : TradingBot) (db db' : Db)
    → IsValid db
    → Stored db b
    → Kept db db'
    → Stored
        (save_bot (with_state DesiredState.stopped ActualState.failed now b) db')
        (with_state DesiredState.stopped ActualState.failed now b)
absent-Stored now b db db' v stored kept = rw kept.bots (
    find-save (λ x. x.id) (λ x. nat_beq x.id b.id)
      (with_state DesiredState.stopped ActualState.failed now b) b db.bots v.unique_bots stored refl
      ((nat_beq_iff b.id b.id).1 refl))

report_failure-rows :
    (b : TradingBot) (error_type : String) (failures : ℕ) (orders : List TradeOrder) (db : Db)
    → let after = report_failure b error_type failures orders db in
      (after.bots ≡ db.bots) × (after.runs ≡ db.runs) × (after.orders ≡ db.orders)
unfolding report_failure
report_failure-rows b error_type failures orders db = (refl, refl, refl)

end_run-orders :
    (now : ℕ) (error_type : String) (run : Option BotRun) (db : Db)
    → (end_run now error_type run db).orders ≡ db.orders
end_run-orders now error_type none db = refl
end_run-orders now error_type (some r) db = refl

ended :
    (now : ℕ) (b : TradingBot) (error_type : String) (run : Option BotRun) (db db' : Db)
    → IsValid db
    → Stored db b
    → Kept db db'
    → UniqueIds (λ o. o.id) db'.orders
    → find (run_of b.id is_live) db.runs ≡ run
    → let after =
        end_run now error_type run
          (save_bot (with_state DesiredState.stopped ActualState.failed now b) db') in
      IsValid after × Stored after (with_state DesiredState.stopped ActualState.failed now b)
ended now b error_type none db db' v stored kept orders absent = (
  absent-IsValid now b db db' v stored kept orders absent,
  absent-Stored now b db db' v stored kept,
)
ended now b error_type (some r) db db' v stored kept orders found =
    let moved =
      change-Moves b is_live r (failed_run now error_type r) DesiredState.stopped ActualState.failed
        now db'.audit db db' v stored kept orders found (found_test b.id is_live db.runs r found).1
        refl refl refl refl refl in
    (moved.0, moved.1)

Failed-after :
    (now : ℕ) (b : TradingBot) (error_type : String) (failures : ℕ) (run : Option BotRun) (db : Db)
    (c : Result LifecycleError (List TradeOrder × Db))
    → IsValid db
    → Stored db b
    → find (run_of b.id is_live) db.runs ≡ run
    → Cancelled b.account_id db c
    → Failed now b (c >>= λ x. ok (mark_failed now b error_type failures run x.0 x.1))
unfolding mark_failed
Failed-after now b error_type failures run db (err e) v stored found h = absurd h
Failed-after now b error_type failures run db (ok (os, db')) v stored found (kept, orders, closed) =
    let b' = with_state DesiredState.stopped ActualState.failed now b in
    let (valid, there) = ended now b error_type run db db' v stored kept orders found in
    let after = end_run now error_type run (save_bot b' db') in
    let st = Stored-InStep after b' valid there in
    let (bots, runs, orders_kept) = report_failure-rows b error_type failures os after in
    (
      report_failure-IsValid b error_type failures os after valid,
      rw bots there,
      rw runs (omega (arith, count-live b.id after.runs, st.running, st.paused)),
      rw (orders_kept, end_run-orders now error_type run (save_bot b' db')) closed,
    )

-- `fail_bot` never fails itself, whatever state the bot is in: the bot ends stopped and marked
-- failed, its live run (if it has one) is ended, no order of its account stays open, and all bots
-- and runs stay in lockstep.
pub fail_bot_outcome :
    (now : ℕ) (b : TradingBot) (error_type : String) (failures : ℕ) (db : Db)
    → IsValid db
    → Stored db b
    → Failed now b (fail_bot now b error_type failures db)
unfolding fail_bot
fail_bot_outcome now b error_type failures db v stored =
    Failed-after now b error_type failures (find (run_of b.id is_live) db.runs) db
      (cancel_open_orders b "bot_failed" now db) v stored refl
      (cancel_open_orders-Cancelled b "bot_failed" now db v.unique_orders)
