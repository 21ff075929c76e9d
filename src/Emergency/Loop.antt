-- ===== src/Emergency/Loop.antt =====
-- What the loop over the bots comes to.
use ai_system_trading.Prelude.{
  ℕ, ◌≡◌, ◌≢◌, refl, ap, sym, ◌∙◌, Bool, true, false, not, ◌&&◌, some, List, [], ◌∷◌, inl, inr,
  arith, Bool-cases, nat_beq, nat_beq_iff, ◌==◌, nat_equality, Result, ok, err, ◌>>=◌,
}
use mathlib.Core.Path.{subst}
use ai_system_trading.Prelude.Rows.{find, any, All}
use ai_system_trading.Prelude.Table.{save, UniqueIds, All-transfer}
use ai_system_trading.Bot.Types.{DesiredState, ActualState, TradingBot, BotRun, Db, LifecycleError}
use ai_system_trading.Bot.Commands.{with_state, stop_bot}
use ai_system_trading.Bot.Lockstep.{IsValid, Stored}
use ai_system_trading.Bot.Stopping.{Stops, StopOutcome, stop_bot_outcome}
use ai_system_trading.Bot.Rows.{bot_id, find-save_apart, Saves, stop_bot-Saves}
use ai_system_trading.Emergency.Stop.{Stopped, attempted, stop_if_active, both, stop_each}

abbrev pub is_stopped : DesiredState → Bool
is_stopped DesiredState.stopped = true
is_stopped _ = false

-- A bot of the workspace that is to run.
abbrev pub open_bot : ℕ → TradingBot → Bool
open_bot w b = b.workspace_id == w && not (is_stopped b.desired_state)

-- The bots of the workspace that are to run are all among those still to be handled.
pub record Handled (w : ℕ) (bs : List TradingBot) (db : Db) : Type 0 where
  pub valid : IsValid db
  pub unique : UniqueIds bot_id bs
  pub stored : All (Stored db) bs
  pub listed :
      All
        (λ x.
          open_bot w x ≡ true
          → any (λ b. nat_beq b.id x.id && not (is_stopped b.desired_state)) bs ≡ true)
        db.bots

-- What the loop comes to: no failure, no bot of the workspace left that is to run.
abbrev pub AllStopped : ℕ → Result LifecycleError (Stopped × Db) → Type 0
AllStopped w (err e) = ⊥
AllStopped w (ok (s, db)) =
    IsValid db × (s.bot_stop_failures ≡ []) × All (λ x. open_bot w x ≡ false) db.bots

AllStopped-both :
    (w : ℕ) (s : Stopped) (r : Result LifecycleError (Stopped × Db))
    → s.bot_stop_failures ≡ []
    → AllStopped w r
    → AllStopped w (r >>= λ x. ok (both s x.0, x.1))
AllStopped-both w s (err e) none_failed h = absurd h
AllStopped-both w s (ok (t, db)) none_failed (valid, failures, left) =
    (valid, rw (none_failed, failures) refl, left)

-- What one call of `stop_bot` in the loop comes to.
abbrev StoppedOne : ℕ → TradingBot → Db → Result LifecycleError (BotRun × Db) → Type 0
StoppedOne now b db (err e) = ⊥
StoppedOne now b db (ok (r, db')) =
    IsValid db'
    × (db'.bots ≡ save bot_id (with_state DesiredState.stopped ActualState.stopped now b) db.bots)

Stops-StoppedOne :
    (now : ℕ) (b : TradingBot) (db : Db) (r : Result LifecycleError (BotRun × Db))
    → Stops now b r
    → Saves now b db r
    → StoppedOne now b db r
Stops-StoppedOne now b db (err e) (moves, closed) saves = moves
Stops-StoppedOne now b db (ok (r, db')) (moves, closed) saves = (moves.0, saves)

stop_bot-StoppedOne :
    (d : DesiredState) (now : ℕ) (b : TradingBot) (db : Db)
    → is_stopped d ≡ false
    → b.desired_state ≡ d
    → IsValid db
    → Stored db b
    → StoppedOne now b db (stop_bot (some "emergency stop") now b db)
stop_bot-StoppedOne DesiredState.stopped now b db active e v stored = cc
stop_bot-StoppedOne DesiredState.running now b db active e v stored =
    Stops-StoppedOne now b db (stop_bot (some "emergency stop") now b db)
      (subst (λ d. StopOutcome now b d (stop_bot (some "emergency stop") now b db)) e
        (stop_bot_outcome (some "emergency stop") now b db v stored))
      (stop_bot-Saves (some "emergency stop") now b db v.unique_orders)
stop_bot-StoppedOne DesiredState.paused now b db active e v stored =
    Stops-StoppedOne now b db (stop_bot (some "emergency stop") now b db)
      (subst (λ d. StopOutcome now b d (stop_bot (some "emergency stop") now b db)) e
        (stop_bot_outcome (some "emergency stop") now b db v stored))
      (stop_bot-Saves (some "emergency stop") now b db v.unique_orders)

-- The rows of the other bots are found as before.
still_Stored :
    (now : ℕ) (b : TradingBot) (db db' : Db) (bs : List TradingBot)
    → db'.bots ≡ save bot_id (with_state DesiredState.stopped ActualState.stopped now b) db.bots
    → All (λ k. k.id ≢ b.id) bs
    → All (Stored db) bs
    → All (Stored db') bs
still_Stored now b db db' [] e apart stored = tt
still_Stored now b db db' (k ∷ bs) e apart stored = (
  ap (find (λ x. nat_beq x.id k.id)) e
      ∙ find-save_apart k.id (with_state DesiredState.stopped ActualState.stopped now b) db.bots
          apart.0
      ∙ stored.0,
  still_Stored now b db db' bs e apart.1 stored.1,
)

Handled-next :
    (w now : ℕ) (b : TradingBot) (bs : List TradingBot) (db db' : Db)
    → Handled w (b ∷ bs) db
    → IsValid db'
    → db'.bots ≡ save bot_id (with_state DesiredState.stopped ActualState.stopped now b) db.bots
    → Handled w bs db'
Handled-next w now b bs db db' h v e =
    let b' = with_state DesiredState.stopped ActualState.stopped now b in
    record {
      valid = v;
      unique = h.unique.1;
      stored = still_Stored now b db db' bs e h.unique.0 h.stored.1;
      listed =
          subst
            (All (λ x.
              open_bot w x ≡ true
              → any (λ k. nat_beq k.id x.id && not (is_stopped k.desired_state)) bs ≡ true))
            (sym e)
            (All-transfer bot_id
              (λ x.
                open_bot w x ≡ true
                → any (λ k. nat_beq k.id x.id && not (is_stopped k.desired_state)) (b ∷ bs) ≡ true)
              (λ x.
                open_bot w x ≡ true
                → any (λ k. nat_beq k.id x.id && not (is_stopped k.desired_state)) bs ≡ true)
              b' db.bots h.valid.unique_bots h.listed (λ o. absurd (ground arith))
              (λ x apart listed o. ground (arith, listed o, nat_beq_iff b.id x.id)));
    }

All-closed :
    (w : ℕ) (xs : List TradingBot)
    → All (λ x. open_bot w x ≡ true → false ≡ true) xs
    → All (λ x. open_bot w x ≡ false) xs
All-closed w [] h = tt
All-closed w (x ∷ xs) h = (ground (arith, h.0), All-closed w xs h.1)

-- A bot that is to stay stopped is not among those to be handled.
listed_skip :
    (w : ℕ) (b : TradingBot) (bs xs : List TradingBot)
    → is_stopped b.desired_state ≡ true
    → All
        (λ x.
          open_bot w x ≡ true
          → any (λ k. nat_beq k.id x.id && not (is_stopped k.desired_state)) (b ∷ bs) ≡ true)
        xs
    → All
        (λ x.
          open_bot w x ≡ true
          → any (λ k. nat_beq k.id x.id && not (is_stopped k.desired_state)) bs ≡ true)
        xs
listed_skip w b bs [] idle all = tt
listed_skip w b bs (x ∷ xs) idle all =
    ((λ o. ground (arith, all.0 o, idle)), listed_skip w b bs xs idle all.1)

stop_if_active_skip :
    (now : ℕ) (b : TradingBot) (db : Db) (d : DesiredState)
    → is_stopped d ≡ true
    → stop_if_active d now b db ≡ ok (record { stopped_bot_ids = []; bot_stop_failures = [] }, db)
unfolding stop_if_active
stop_if_active_skip now b db DesiredState.stopped idle = refl
stop_if_active_skip now b db DesiredState.running idle = cc
stop_if_active_skip now b db DesiredState.paused idle = cc

stop_if_active_stop :
    (now : ℕ) (b : TradingBot) (db : Db) (d : DesiredState)
    → is_stopped d ≡ false
    → stop_if_active d now b db
      ≡ attempted b db (stop_bot (some "emergency stop") now b db >>= λ x. ok x.1)
unfolding stop_if_active
stop_if_active_stop now b db DesiredState.stopped active = cc
stop_if_active_stop now b db DesiredState.running active = refl
stop_if_active_stop now b db DesiredState.paused active = refl

pub stop_each-AllStopped :
    (w now : ℕ) (bs : List TradingBot) (db : Db)
    → Handled w bs db
    → AllStopped w (stop_each now bs db)
unfolding stop_each
stop_each-AllStopped w now [] db h = (h.valid, refl, All-closed w db.bots h.listed)
stop_each-AllStopped w now (b ∷ bs) db h = elim (Bool-cases (is_stopped b.desired_state)) [
  | inl idle ↦
      let rest : Handled w bs db = record {
        valid = h.valid;
        unique = h.unique.1;
        stored = h.stored.1;
        listed = listed_skip w b bs db.bots idle h.listed;
      } in
      rw (stop_if_active_skip now b db b.desired_state idle) (
        AllStopped-both w (record { stopped_bot_ids = []; bot_stop_failures = [] })
          (stop_each now bs db) refl (stop_each-AllStopped w now bs db rest))
  | inr active ↦ rw (stop_if_active_stop now b db b.desired_state active) (
      after (stop_bot (some "emergency stop") now b db)
        (stop_bot-StoppedOne b.desired_state now b db active refl h.valid h.stored.0)
        (λ db' rest. stop_each-AllStopped w now bs db' rest))
]
  where
    after :
        (r : Result LifecycleError (BotRun × Db))
        → StoppedOne now b db r
        → ((db' : Db) → Handled w bs db' → AllStopped w (stop_each now bs db'))
        → AllStopped w (
            attempted b db (r >>= λ x. ok x.1) >>= λ x.
            stop_each now bs x.1 >>= λ y. ok (both x.0 y.0, y.1))
    after (err e) one loop = absurd one
    after (ok (r, db')) (v, saves) loop =
        AllStopped-both w (record { stopped_bot_ids = b.id ∷ []; bot_stop_failures = [] })
          (stop_each now bs db') refl (loop db' (Handled-next w now b bs db db' h v saves))
