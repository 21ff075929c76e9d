-- ===== src/Bot/Starting.antt =====
-- The outcome of `start_bot`.
use ai_system_trading.Prelude.{
  ℕ, ◌≡◌, ◌<◌, refl, none, List, [], ◌∷◌, ◌++◌, arith, Result, ok, err, ◌>>=◌, map_err, ◌+◌,
  nat_beq, nat_beq_iff,
}
use ai_system_trading.Prelude.Rows.{All, All-append, count-append}
use ai_system_trading.Prelude.Table.{UniqueIds-save, UniqueIds-append, find-save}
use ai_system_trading.Bot.Types.{
  DesiredState, ActualState, RunStatus, TradingBot, BotRun, Db, is_running, is_paused,
  LifecycleError, already_in_target_state, invalid_state, StartupError, startup_validation_failed,
}
use ai_system_trading.Bot.Startup.{Env, validate_bot_startup}
use ai_system_trading.Bot.Commands.{run_of, with_state, new_run, open_run, start_from, start_bot}
use ai_system_trading.Bot.Lockstep.{InStep, IsValid, Stored, Stored-InStep, append-InStep}
use ai_system_trading.Bot.Transitions.{Moves}

All-below : (n : ℕ) (rs : List BotRun) → All (λ r. r.id < n) rs → All (λ r. r.id < n + 1) rs
All-below n [] all = tt
All-below n (r ∷ rs) all = (omega arith, All-below n rs all.1)

-- The new run of a stopped bot puts it in step.
opened-InStep :
    (now : ℕ) (b : TradingBot) (db : Db)
    → b.desired_state ≡ DesiredState.stopped
    → InStep db.runs b
    → InStep
        (db.runs ++ new_run db.log.fresh b now ∷ [])
        (with_state DesiredState.running ActualState.running now b)
opened-InStep now b db e st =
    let r = new_run db.log.fresh b now in
    record {
      running = ground (
        arith,
        count-append (run_of b.id is_running) db.runs (r ∷ []),
        st.running,
        nat_beq_iff b.id b.id,
      );
      paused = ground (
        arith,
        count-append (run_of b.id is_paused) db.runs (r ∷ []),
        st.paused,
        nat_beq_iff b.id b.id,
      );
      actual = refl;
    }

open_run-Moves :
    (now : ℕ) (b : TradingBot) (db : Db)
    → b.desired_state ≡ DesiredState.stopped
    → IsValid db
    → Stored db b
    → Moves DesiredState.running ActualState.running now b (ok (open_run now b db))
unfolding open_run
open_run-Moves now b db e v stored =
    let r = new_run db.log.fresh b now in
    let b' = with_state DesiredState.running ActualState.running now b in
    (
      record {
        unique_bots = UniqueIds-save (λ x. x.id) b' db.bots v.unique_bots;
        unique_runs =
            UniqueIds-append (λ x. x.id) r db.log.fresh db.runs v.used (omega arith) v.unique_runs;
        unique_orders = v.unique_orders;
        used =
            All-append (λ x. x.id < db.log.fresh + 1) db.runs (r ∷ [])
              (All-below db.log.fresh db.runs v.used) (omega arith, tt);
        in_step =
            append-InStep db.runs db.bots b' r v.unique_bots v.in_step refl
              (opened-InStep now b db e (Stored-InStep db b v stored));
      },
      find-save (λ x. x.id) (λ x. nat_beq x.id b.id) b' b db.bots v.unique_bots stored refl
          ((nat_beq_iff b.id b.id).1 refl),
      refl,
    )

-- The run that a start opens: a new row of the runs table, and the only one that changes.
abbrev Opens : ℕ → TradingBot → Db → Result LifecycleError (BotRun × Db) → Type 0
Opens now b db (err e) = ⊥
Opens now b db (ok (r, db')) =
    (db'.runs ≡ db.runs ++ r ∷ [])
    × (r.status ≡ RunStatus.running)
    × (r.started_at ≡ now)
    × (r.stopped_at ≡ none)
    × (r.stop_reason ≡ none)

-- It fails with the first failed check and changes nothing, or the bot runs with a new run.
abbrev CheckedOpens :
    Env → TradingBot → Db → Result StartupError Unit → Result LifecycleError (BotRun × Db) → Type 0
CheckedOpens env b db (err e) res = res ≡ err (startup_validation_failed e)
CheckedOpens env b db (ok _) res =
    Moves DesiredState.running ActualState.running env.now b res × Opens env.now b db res

abbrev pub StartOutcome :
    Env → TradingBot → Db → DesiredState → Result LifecycleError (BotRun × Db) → Type 0
StartOutcome env b db DesiredState.running res = res ≡ err already_in_target_state
StartOutcome env b db DesiredState.paused res = res ≡ err invalid_state
StartOutcome env b db DesiredState.stopped res =
    CheckedOpens env b db (validate_bot_startup env b) res

start_checked :
    (env : Env) (b : TradingBot) (db : Db) (c : Result StartupError Unit)
    → b.desired_state ≡ DesiredState.stopped
    → IsValid db
    → Stored db b
    → CheckedOpens env b db c
        (map_err startup_validation_failed c >>= λ _. ok (open_run env.now b db))
unfolding open_run
start_checked env b db (err x) e v stored = refl
start_checked env b db (ok _) e v stored =
    (open_run-Moves env.now b db e v stored, (refl, refl, refl, refl, refl))

start_from_outcome :
    (d : DesiredState) (env : Env) (b : TradingBot) (db : Db)
    → b.desired_state ≡ d
    → IsValid db
    → Stored db b
    → StartOutcome env b db d (start_from d env b db)
unfolding start_from
start_from_outcome DesiredState.running env b db e v stored = refl
start_from_outcome DesiredState.paused env b db e v stored = refl
start_from_outcome DesiredState.stopped env b db e v stored =
    start_checked env b db (validate_bot_startup env b) e v stored

-- `start` on a running bot is refused as already there, on a paused one as invalid. On a stopped
-- bot (a failed one too) it reports the first failed start-up check, or adds one row to
-- the runs table, the bot's one running run, started now; all bots and runs stay in lockstep.
pub start_bot_outcome :
    (env : Env) (b : TradingBot) (db : Db)
    → IsValid db
    → Stored db b
    → StartOutcome env b db b.desired_state (start_bot env b db)
unfolding start_bot
start_bot_outcome env b db v stored = start_from_outcome b.desired_state env b db refl v stored
