-- ===== src/Emergency/Outcome.antt =====
-- What an emergency stop of a workspace comes to.
use ai_system_trading.Prelude.{
  ℕ, ◌+◌, ◌≤◌, ◌<◌, ◌≡◌, ap, sym, ◌∙◌, Bool, true, false, not, is_some, ◌&&◌, Option, none, some,
  List, [], ◌∷◌, arith, nat_beq, nat_beq_iff, ◌==◌, nat_equality, Result, ok, err, ◌>>=◌,
}
use ai_system_trading.Prelude.Rows.{any, select, All}
use mathlib.Core.List.{Memᴰ}
use ai_system_trading.Events.{EventLog}
use ai_system_trading.Events.Pairing.{take_id-IsValid}
use ai_system_trading.Halt.{
  workspace, HaltScope, TradingHalt, Store, find_active_halt, activate_or_escalate,
}
use ai_system_trading.Halt.Invariant.{IsValid as IsValidTable, All-below}
use ai_system_trading.Halt.Escalation.{current, activate_or_escalate-current}
use ai_system_trading.Halt.Runs.{severity_le}
use ai_system_trading.Halt.Fresh.{activate_or_escalate_later}
use ai_system_trading.Bot.Types.{TradingBot, BotRun, Db, LifecycleError}
use ai_system_trading.Bot.Cancelling.{All-Mem}
use ai_system_trading.Bot.Lockstep.{IsValid}
use ai_system_trading.Bot.Rows.{bot_id, All-found, All-select, UniqueIds-select}
use ai_system_trading.Emergency.Stop.{
  Request, World, halt_store, Stopped, EmergencyStopResult, reason_code, stop_each, stop_activation,
  stop_audit, activate_stop, activate_and_stop, emergency_stop_workspace,
}
use ai_system_trading.Emergency.Loop.{
  is_stopped, open_bot, Handled, AllStopped, stop_each-AllStopped,
}

abbrev pub workspace_scope : ℕ → HaltScope
workspace_scope id = record { workspace_id = id; scope_type = workspace; scope_id = none }

-- The halt stands at the emergency stop, no bot of the workspace is to run, none failed to stop,
-- and bots and runs are in lockstep.
abbrev pub Accomplished : ℕ → Result LifecycleError (EmergencyStopResult × World) → Type 0
Accomplished id (err e) = ⊥
Accomplished id (ok (o, w)) =
    (current (find_active_halt (workspace_scope id) reason_code (halt_store w)) ≡ 4)
    × All (λ x. open_bot id x ≡ false) w.db.bots
    × (o.bots.bot_stop_failures ≡ [])
    × IsValid w.db

All-weaken-runs :
    (n m : ℕ) (rs : List BotRun) → n ≤ m → All (λ r. r.id < n) rs → All (λ r. r.id < m) rs
All-weaken-runs n m [] le all = tt
All-weaken-runs n m (r ∷ rs) le all = (omega (arith, all.0), All-weaken-runs n m rs le all.1)

-- An identifier is taken for the correlation of the stop.
take_id-IsValidTable :
    (st : Store)
    → IsValidTable st
    → IsValidTable (record st { log = record st.log { fresh = st.log.fresh + 1 } })
take_id-IsValidTable st v = record {
  unique = v.unique;
  used = All-below st.log.fresh (st.log.fresh + 1) st.halts (omega arith) v.used;
  single = v.single;
  stamped = v.stamped;
  paired = take_id-IsValid st.log v.paired;
}

log-IsValid :
    (db : Db) (log : EventLog)
    → db.log.fresh ≤ log.fresh
    → IsValid db
    → IsValid (record db { log = log })
log-IsValid db log later v = record {
  unique_bots = v.unique_bots;
  unique_runs = v.unique_runs;
  unique_orders = v.unique_orders;
  used = All-weaken-runs db.log.fresh log.fresh db.runs later v.used;
  in_step = v.in_step;
}

-- The workspace's bots are all to be handled.
select-listed :
    (id : ℕ) (x : TradingBot) (xs : List TradingBot)
    → Memᴰ x xs
    → open_bot id x ≡ true
    → any
        (λ b. nat_beq b.id x.id && not (is_stopped b.desired_state))
        (select (λ b. b.workspace_id == id) xs)
      ≡ true
select-listed id x [] m o = elim m [ ]
select-listed id x (y ∷ xs) (Memᴰ.head e) o =
    let same : open_bot id y ≡ true = ap (open_bot id) (sym e) ∙ o in
    ground (arith, same, nat_beq_iff y.id x.id, ap bot_id e)
select-listed id x (y ∷ xs) (Memᴰ.tail m) o = ground (arith, select-listed id x xs m o)

initially-Handled :
    (id : ℕ) (db : Db) → IsValid db → Handled id (select (λ b. b.workspace_id == id) db.bots) db
initially-Handled id db v = record {
  valid = v;
  unique = UniqueIds-select (λ b. b.workspace_id == id) db.bots v.unique_bots;
  stored = All-select _ (λ b. b.workspace_id == id) db.bots (All-found db.bots v.unique_bots);
  listed = All-Mem db.bots (λ x m o. select-listed id x db.bots m o);
}

current_le : (o : Option TradingHalt) → current o ≤ 4
current_le none = omega arith
current_le (some h) = severity_le h.level

-- The halt of the stop, whatever halt its cause had before.
stop-current :
    (id : ℕ) (q : Request) (c : ℕ) (st : Store)
    → IsValidTable st
    → current (
        find_active_halt
          (workspace_scope id)
          reason_code
          (activate_or_escalate (stop_activation (workspace_scope id) q c) st).1)
      ≡ 4
stop-current id q c st v =
    let (found, raised) =
      activate_or_escalate-current (stop_activation (workspace_scope id) q c) st v in
    rw found
      (omega (arith, raised, current_le (find_active_halt (workspace_scope id) reason_code st)))

audit-IsValid :
    (s : HaltScope) (q : Request) (o : EmergencyStopResult) (db : Db)
    → IsValid db
    → IsValid (stop_audit s q o db)
audit-IsValid s q o db v = record {
  unique_bots = v.unique_bots;
  unique_runs = v.unique_runs;
  unique_orders = v.unique_orders;
  used = v.used;
  in_step = v.in_step;
}

-- The audit row and the result, after the loop.
finish :
    (id : ℕ) (q : Request) (h : TradingHalt) (already : Bool) (w : World)
    (r : Result LifecycleError (Stopped × Db))
    → AllStopped id r
    → current (find_active_halt (workspace_scope id) reason_code (halt_store w)) ≡ 4
    → Accomplished id (
        r >>= λ x.
        let result : EmergencyStopResult = record {
          halt = h;
          already_active = already;
          bots = x.0;
        } in
        ok (result, record w { db = stop_audit (workspace_scope id) q result x.1 }))
unfolding find_active_halt
finish id q h already w (err e) stopped active = absurd stopped
finish id q h already w (ok (s, db)) (v, failures, left) active =
    let result : EmergencyStopResult = record { halt = h; already_active = already; bots = s } in
    (active, left, failures, audit-IsValid (workspace_scope id) q result db v)

-- An emergency stop of a workspace always succeeds over valid tables, whether or not one is
-- active: the workspace's halt stands at the emergency stop, every bot of the workspace is
-- stopped, none of them failed to stop, and all bots and runs stay in lockstep.
pub emergency_stop_workspace-Accomplished :
    (id : ℕ) (q : Request) (now : ℕ) (w : World)
    → IsValid w.db
    → IsValidTable (halt_store w)
    → Accomplished id (emergency_stop_workspace id q now w)
unfolding emergency_stop_workspace activate_and_stop activate_stop
emergency_stop_workspace-Accomplished id q now w v t =
    let st : Store = record (halt_store w) {
      log = record w.db.log { fresh = w.db.log.fresh + 1 };
    } in
    let a = stop_activation (workspace_scope id) q w.db.log.fresh in
    let (h, after) = activate_or_escalate a st in
    let db : Db = record w.db { log = after.log } in
    let w' : World = record { db = db; halts = after.halts; reactivations = after.reactivations } in
    let later : w.db.log.fresh ≤ after.log.fresh = omega (arith, activate_or_escalate_later a st) in
    let bots = select (λ b. b.workspace_id == id) w.db.bots in
    finish id q h (is_some (find_active_halt (workspace_scope id) reason_code st)) w'
      (stop_each now bots db)
      (stop_each-AllStopped id now bots db
        (initially-Handled id db (log-IsValid w.db after.log later v)))
      (stop-current id q w.db.log.fresh st (take_id-IsValidTable (halt_store w) t))
