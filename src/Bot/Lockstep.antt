-- ===== src/Bot/Lockstep.antt =====
-- "bot_lifecycle.py's commands always keep actual_state and the active BotRun in lockstep", which
-- bot_execution_loop.py relies on: the invariant, and how a command's two writes keep it.
use ai_system_trading.Prelude.{
  ℕ, ◌<◌, ◌≡◌, ◌≢◌, ap, ◌∙◌, Bool, false, some, List, [], ◌∷◌, ◌++◌, arith, nat_equality, nat_beq,
}
use ai_system_trading.Prelude.Rows.{All, All-find, find, count, count-append}
use ai_system_trading.Prelude.Table.{save, one, UniqueIds, count-save, All-transfer}
use ai_system_trading.Bot.Types.{
  DesiredState, ActualState, RunStatus, TradingBot, BotRun, Db, is_running, is_paused,
}
use ai_system_trading.Bot.Commands.{run_of}

abbrev pub running_runs : DesiredState → ℕ
running_runs DesiredState.running = 1
running_runs _ = 0

abbrev pub paused_runs : DesiredState → ℕ
paused_runs DesiredState.paused = 1
paused_runs _ = 0

-- The state that the user asked for, as the actual state shows it: a failed bot is to be stopped.
abbrev pub settled : ActualState → DesiredState
settled ActualState.stopped = DesiredState.stopped
settled ActualState.running = DesiredState.running
settled ActualState.paused = DesiredState.paused
settled ActualState.failed = DesiredState.stopped

-- A running bot has exactly one running run and no paused one, a paused bot exactly one paused run
-- and no running one, a stopped bot neither; and the actual state agrees with the desired one.
pub record InStep (runs : List BotRun) (b : TradingBot) : Type 0 where
  pub running : count (run_of b.id is_running) runs ≡ running_runs b.desired_state
  pub paused : count (run_of b.id is_paused) runs ≡ paused_runs b.desired_state
  pub actual : settled b.actual_state ≡ b.desired_state

pub record IsValid (db : Db) : Type 0 where
  pub unique_bots : UniqueIds (λ b. b.id) db.bots
  pub unique_runs : UniqueIds (λ r. r.id) db.runs
  pub unique_orders : UniqueIds (λ o. o.id) db.orders
  pub used : All (λ r. r.id < db.log.fresh) db.runs
  pub in_step : All (InStep db.runs) db.bots

-- The ORM object `b` is the table's row of that identifier.
abbrev pub Stored : Db → TradingBot → Type 0
Stored db b = find (λ x. nat_beq x.id b.id) db.bots ≡ some b

pub Stored-InStep : (db : Db) (b : TradingBot) → IsValid db → Stored db b → InStep db.runs b
Stored-InStep db b v found =
    All-find (InStep db.runs) (λ x. nat_beq x.id b.id) db.bots b v.in_step found

-- A run of one bot counts for no other.
run_of_other :
    (i : ℕ) (test : RunStatus → Bool) (r : BotRun) → i ≢ r.bot_id → run_of i test r ≡ false
run_of_other i test r h = ground arith

-- A bot's run is changed, and with it the bot: all bots stay in step.
pub change-InStep :
    (p : BotRun → Bool) (runs : List BotRun) (bots : List TradingBot) (b : TradingBot)
    (r r' : BotRun)
    → UniqueIds (λ x. x.id) runs
    → UniqueIds (λ x. x.id) bots
    → All (InStep runs) bots
    → find p runs ≡ some r
    → r'.id ≡ r.id
    → r.bot_id ≡ b.id
    → r'.bot_id ≡ b.id
    → InStep (save (λ x. x.id) r' runs) b
    → All (InStep (save (λ x. x.id) r' runs)) (save (λ x. x.id) b bots)
change-InStep p runs bots b r r' ur ub all found same old new h =
    All-transfer (λ x. x.id) (InStep runs) (InStep (save (λ x. x.id) r' runs)) b bots ub all h
      (λ x apart st. record {
        running = unchanged x.id is_running apart ∙ st.running;
        paused = unchanged x.id is_paused apart ∙ st.paused;
        actual = st.actual;
      })
  where
    unchanged :
        (i : ℕ) (test : RunStatus → Bool)
        → i ≢ b.id
        → count (run_of i test) (save (λ x. x.id) r' runs) ≡ count (run_of i test) runs
    unchanged i test apart = omega (
      arith,
      count-save (λ x. x.id) p (run_of i test) r' r runs ur found same,
      ap one (run_of_other i test r (λ e. apart (e ∙ old))),
      ap one (run_of_other i test r' (λ e. apart (e ∙ new))),
    )

-- A run is appended for a bot: all other bots stay in step.
pub append-InStep :
    (runs : List BotRun) (bots : List TradingBot) (b : TradingBot) (r : BotRun)
    → UniqueIds (λ x. x.id) bots
    → All (InStep runs) bots
    → r.bot_id ≡ b.id
    → InStep (runs ++ r ∷ []) b
    → All (InStep (runs ++ r ∷ [])) (save (λ x. x.id) b bots)
append-InStep runs bots b r ub all new h =
    All-transfer (λ x. x.id) (InStep runs) (InStep (runs ++ r ∷ [])) b bots ub all h
      (λ x apart st. record {
        running = unchanged x.id is_running apart ∙ st.running;
        paused = unchanged x.id is_paused apart ∙ st.paused;
        actual = st.actual;
      })
  where
    unchanged :
        (i : ℕ) (test : RunStatus → Bool)
        → i ≢ b.id
        → count (run_of i test) (runs ++ r ∷ []) ≡ count (run_of i test) runs
    unchanged i test apart =
        let other = run_of_other i test r (λ e. apart (e ∙ new)) in
        ground (arith, count-append (run_of i test) runs (r ∷ []), other)
