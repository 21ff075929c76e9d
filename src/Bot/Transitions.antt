-- ===== src/Bot/Transitions.antt =====
-- What each lifecycle command does, by the state that it finds the bot in.
use mathlib.Core.Path.{subst}
use ai_system_trading.Prelude.{
  ℕ, ◌<◌, ◌≤◌, ◌≡◌, refl, sym, ap, ◌∙◌, Bool, true, some, List, arith, nat_equality, nat_beq,
  nat_beq_iff, Result, ok, err,
}
use ai_system_trading.Prelude.Rows.{All-find, find, find_holds, find_present, count}
use ai_system_trading.Prelude.Table.{
  save, one, UniqueIds, UniqueIds-save, count-save, find-save, All-save,
}
use ai_system_trading.Bot.Types.{
  DesiredState, ActualState, RunStatus, TradingBot, BotRun, AuditRow, Db, is_running, is_paused,
  is_live, LifecycleError,
}
use ai_system_trading.Bot.Commands.{run_of, with_state, save_bot, save_run}
use ai_system_trading.Bot.Cancelling.{Kept}
use ai_system_trading.Bot.Lockstep.{
  InStep, IsValid, Stored, Stored-InStep, running_runs, paused_runs, settled, change-InStep,
}

status_of_counts :
    (s : RunStatus) (d : DesiredState)
    → is_live s ≡ true
    → (is_running s ≡ true → 1 ≤ running_runs d)
    → (is_paused s ≡ true → 1 ≤ paused_runs d)
    → (one (is_running s) ≡ running_runs d) × (one (is_paused s) ≡ paused_runs d)
status_of_counts s d live r p = ground (arith, r, p)

run_of_own :
    (i : ℕ) (test : RunStatus → Bool) (r : BotRun) → r.bot_id ≡ i → run_of i test r ≡ test r.status
run_of_own i test r h = ground arith

-- A live run that a query finds says what its bot's state is.
found_status :
    (runs : List BotRun) (b : TradingBot) (test : RunStatus → Bool) (r : BotRun)
    → InStep runs b
    → find (run_of b.id test) runs ≡ some r
    → is_live r.status ≡ true
    → (r.bot_id ≡ b.id)
      × (one (is_running r.status) ≡ running_runs b.desired_state)
      × (one (is_paused r.status) ≡ paused_runs b.desired_state)
found_status runs b test r st found live =
    let hit = find_holds (run_of b.id test) runs r found in
    let own : r.bot_id ≡ b.id = ground (arith, hit) in
    let counted =
      status_of_counts r.status b.desired_state live
        (λ h. omega (
          arith,
          find_present (run_of b.id test) (run_of b.id is_running) runs r found
              (run_of_own b.id is_running r own ∙ h),
          st.running,
        ))
        (λ h. omega (
          arith,
          find_present (run_of b.id test) (run_of b.id is_paused) runs r found
              (run_of_own b.id is_paused r own ∙ h),
          st.paused,
        )) in
    (own, counted.0, counted.1)

-- The bot's live run and the bot change together: the bot stays in step.
found-InStep :
    (runs : List BotRun) (b : TradingBot) (test : RunStatus → Bool) (r r' : BotRun)
    (d : DesiredState) (a : ActualState) (now : ℕ)
    → UniqueIds (λ x. x.id) runs
    → InStep runs b
    → find (run_of b.id test) runs ≡ some r
    → is_live r.status ≡ true
    → r'.id ≡ r.id
    → r'.bot_id ≡ r.bot_id
    → one (is_running r'.status) ≡ running_runs d
    → one (is_paused r'.status) ≡ paused_runs d
    → settled a ≡ d
    → InStep (save (λ x. x.id) r' runs) (with_state d a now b)
found-InStep runs b test r r' d a now u st found live same same_bot running paused actual =
    let (own, was_running, was_paused) = found_status runs b test r st found live in
    record {
      running = recount is_running was_running (st.running) running own;
      paused = recount is_paused was_paused (st.paused) paused own;
      actual = actual;
    }
  where
    recount :
        (t : RunStatus → Bool) {n m : ℕ}
        → one (t r.status) ≡ n
        → count (run_of b.id t) runs ≡ n
        → one (t r'.status) ≡ m
        → r.bot_id ≡ b.id
        → count (run_of b.id t) (save (λ x. x.id) r' runs) ≡ m
    recount t was before now_ own = omega (
      arith,
      count-save (λ x. x.id) (run_of b.id test) (run_of b.id t) r' r runs u found same,
      ap one (run_of_own b.id t r own),
      ap one (run_of_own b.id t r' (same_bot ∙ own)),
    )

-- What a successful command leaves: a valid table, with the bot's row in the new state, and the
-- run that it returns is the bot's.
abbrev pub Moves :
    DesiredState → ActualState → ℕ → TradingBot → Result LifecycleError (BotRun × Db) → Type 0
Moves d a now b (err e) = ⊥
Moves d a now b (ok (r, db)) = IsValid db × Stored db (with_state d a now b) × (r.bot_id ≡ b.id)

-- The run that was in the given status goes on in another: the run that is returned is that one,
-- the same in all but its status and its heartbeat, and in the runs table it takes its place.
abbrev pub Continues :
    (from : RunStatus → Bool)
    → (to : RunStatus) → ℕ
    → TradingBot
    → Db
    → Result LifecycleError (BotRun × Db)
    → Type 0
Continues from to now b db (err e) = ⊥
Continues from to now b db (ok (r', db')) =
    (r : BotRun) × (find (run_of b.id from) db.runs ≡ some r)
    × (r' ≡ record r { status = to; heartbeat_at = some now })
    × (db'.runs ≡ save (λ x. x.id) r' db.runs)

-- Saving the changed run and the changed bot, over rows that the cancellations kept.
settle-IsValid :
    (b b' : TradingBot) (p : BotRun → Bool) (r r' : BotRun) (db db' : Db)
    → IsValid db
    → Stored db b
    → Kept db db'
    → UniqueIds (λ o. o.id) db'.orders
    → find p db.runs ≡ some r
    → r'.id ≡ r.id
    → r.bot_id ≡ b'.id
    → r'.bot_id ≡ b'.id
    → b'.id ≡ b.id
    → InStep (save (λ x. x.id) r' db.runs) b'
    → IsValid (save_run r' (save_bot b' db')) × Stored (save_run r' (save_bot b' db')) b'
settle-IsValid b b' p r r' db db' v stored kept orders found same old new new_bot st = (
  record {
    unique_bots = rw kept.bots (UniqueIds-save (λ x. x.id) b' db.bots v.unique_bots);
    unique_runs = rw kept.runs (UniqueIds-save (λ x. x.id) r' db.runs v.unique_runs);
    unique_orders = orders;
    used =
        rw (kept.runs, kept.log)
          (All-save (λ x. x.id) (λ x. x.id < db.log.fresh) r' db.runs
            (omega (arith, same, All-find (λ x. x.id < db.log.fresh) p db.runs r v.used found))
            v.used);
    in_step =
        rw (kept.runs, kept.bots)
          (change-InStep p db.runs db.bots b' r r' v.unique_runs v.unique_bots v.in_step found same
            old new st);
  },
  rw kept.bots (
      find-save (λ x. x.id) (λ x. nat_beq x.id b'.id) b' b db.bots v.unique_bots
        (subst (λ i. find (λ x. nat_beq x.id i) db.bots ≡ some b) (sym new_bot) stored) new_bot
        ((nat_beq_iff b'.id b'.id).1 refl)),
)

audit-IsValid : (rows : List AuditRow) (db : Db) → IsValid db → IsValid (record db { audit = rows })
audit-IsValid rows db v = record {
  unique_bots = v.unique_bots;
  unique_runs = v.unique_runs;
  unique_orders = v.unique_orders;
  used = v.used;
  in_step = v.in_step;
}

pub live_of_running : (s : RunStatus) → is_running s ≡ true → is_live s ≡ true
live_of_running s h = ground arith

pub live_of_paused : (s : RunStatus) → is_paused s ≡ true → is_live s ≡ true
live_of_paused s h = ground arith

pub found_test :
    (i : ℕ) (test : RunStatus → Bool) (runs : List BotRun) (r : BotRun)
    → find (run_of i test) runs ≡ some r
    → (r.bot_id ≡ i) × (test r.status ≡ true)
found_test i test runs r found =
    let hit = find_holds (run_of i test) runs r found in (ground (arith, hit), ground (arith, hit))

-- The writes that pause, resume and stop share, on the run that their query found.
pub change-Moves :
    (b : TradingBot) (test : RunStatus → Bool) (r r' : BotRun) (d : DesiredState) (a : ActualState)
    (now : ℕ) (rows : List AuditRow) (db db' : Db)
    → IsValid db
    → Stored db b
    → Kept db db'
    → UniqueIds (λ o. o.id) db'.orders
    → find (run_of b.id test) db.runs ≡ some r
    → is_live r.status ≡ true
    → r'.id ≡ r.id
    → r'.bot_id ≡ r.bot_id
    → one (is_running r'.status) ≡ running_runs d
    → one (is_paused r'.status) ≡ paused_runs d
    → settled a ≡ d
    → Moves d a now b
        (ok (r', record (save_run r' (save_bot (with_state d a now b) db')) { audit = rows }))
change-Moves b test r r' d a now rows db db' v stored kept orders found live same same_bot rn pn
      st =
    let own = (found_test b.id test db.runs r found).0 in
    let b' = with_state d a now b in
    let (valid, there) =
      settle-IsValid b b' (run_of b.id test) r r' db db' v stored kept orders found same own
        (same_bot ∙ own) refl
        (found-InStep db.runs b test r r' d a now v.unique_runs (Stored-InStep db b v stored) found
          live same same_bot rn pn st) in
    (audit-IsValid rows (save_run r' (save_bot b' db')) valid, there, same_bot ∙ own)
