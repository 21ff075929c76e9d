-- ===== src/Halt/Transitions.antt =====
-- The queries and the two transitions of trading_halt.py.
use Prim.Native.String.{String}
use ai_system_trading.Prelude.{
  string_equality, ℕ, ◌+◌, Bool, true, false, ◌&&◌, Option, none, some, List, [], ◌∷◌, ◌++◌, ltb,
  leb, if◌then◌else◌, ◌==◌, nat_equality, option_equality,
}
use ai_system_trading.Prelude.Rows.{find, any}
use ai_system_trading.Prelude.Table.{save}
use ai_system_trading.Events.{EventLog}
use ai_system_trading.Halt.Types.{
  Level, level_severity, one_step_down, emergency_stopped, scope_type_equality, active, released,
  is_active, is_released, HaltScope, TradingHalt, Reactivation, Store, Activation,
}
use ai_system_trading.Halt.Announce.{announce}

abbrev pub in_scope : HaltScope → TradingHalt → Bool
in_scope s h =
    h.workspace_id == s.workspace_id && (h.scope_type == s.scope_type && h.scope_id == s.scope_id)

-- The `where` of `_find_active_halt`.
abbrev pub active_for : HaltScope → String → TradingHalt → Bool
active_for s r h = in_scope s h && (h.reason_code == r && is_active h.status)

abbrev released_for : HaltScope → String → TradingHalt → Bool
released_for s r h = in_scope s h && (h.reason_code == r && is_released h.status)

unfoldable pub find_active_halt : HaltScope → String → Store → Option TradingHalt
find_active_halt s r st = find (active_for s r) st.halts

-- `released_at` in descending order, NULL first.
abbrev not_before : Option ℕ → Option ℕ → Bool
not_before none b = true
not_before (some a) none = false
not_before (some a) (some b) = leb b a

abbrev later : TradingHalt → Option TradingHalt → Option TradingHalt
later h none = some h
later h (some k) = if not_before h.released_at k.released_at then some h else some k

latest_released : HaltScope → String → List TradingHalt → Option TradingHalt
latest_released s r [] = none
latest_released s r (h ∷ hs) =
    let rest = latest_released s r hs in if released_for s r h then later h rest else rest

unfoldable pub most_recently_released_halt : HaltScope → String → Store → Option TradingHalt
unfolding latest_released
most_recently_released_halt s r st = latest_released s r st.halts

unfoldable pub last_release_time : HaltScope → String → Store → Option ℕ
unfolding most_recently_released_halt
last_release_time s r st = elim (most_recently_released_halt s r st) [
  | none ↦ none
  | some h ↦ h.released_at
]

-- The log entry, if the last release of this cause was made by a person.
unfoldable pub override_note : Activation → Option TradingHalt → List Reactivation
override_note a none = []
override_note a (some h) = elim h.released_by [
  | none ↦ []
  | some who ↦
      record {
        scope = a.scope;
        reason_code = a.reason_code;
        level = a.level;
        released_by = who;
        released_at = h.released_at;
      }
      ∷ []
]

-- The new row before its announcement.
unfoldable pub new_halt : Activation → ℕ → TradingHalt
new_halt a id = record {
  id = id;
  workspace_id = a.scope.workspace_id;
  scope_type = a.scope.scope_type;
  scope_id = a.scope.scope_id;
  level = a.level;
  reason_code = a.reason_code;
  auto_releasable = a.auto_releasable;
  status = active;
  trigger_event_id = none;
  released_at = none;
  released_by = none;
}

-- The branch `existing is None`.
unfoldable pub create : Activation → Store → TradingHalt × Store
unfolding new_halt override_note most_recently_released_halt
create a st =
    let bare = new_halt a st.log.fresh in
    let log' : EventLog = record st.log { fresh = st.log.fresh + 1 } in
    let (event, log'') = announce bare a.event none log' in
    let halt = record bare { trigger_event_id = some event.id } in
    (
      halt,
      record {
        halts = st.halts ++ halt ∷ [];
        log = log'';
        reactivations =
            st.reactivations
            ++ override_note a (most_recently_released_halt a.scope a.reason_code st);
      },
    )

-- The branch on an existing row.
unfoldable pub escalate : Activation → TradingHalt → Store → TradingHalt × Store
escalate a existing st =
    if ltb (level_severity existing.level) (level_severity a.level)
    then (let raised = record existing { level = a.level } in
        (
          raised,
          record st {
            halts = save (λ h. h.id) raised st.halts;
            log = (announce raised a.event (some existing.level) st.log).1;
          },
        ))
    else (existing, st)

unfoldable pub activate_or_escalate : Activation → Store → TradingHalt × Store
unfolding find_active_halt create escalate
activate_or_escalate a st = elim (find_active_halt a.scope a.reason_code st) [
  | none ↦ create a st
  | some existing ↦ escalate a existing st
]

-- The row that `deescalate_one_step` leaves of an active one.
abbrev pub step_down : ℕ → Option ℕ → TradingHalt → TradingHalt
step_down now released_by h = elim (one_step_down h.level) [
  | none ↦ record h { status = released; released_at = some now; released_by = released_by }
  | some next ↦ record h { level = next }
]

abbrev pub is_emergency : Level → Bool
is_emergency emergency_stopped = true
is_emergency _ = false

unfoldable pub deescalate_one_step :
    HaltScope → String → ℕ → Option ℕ → Store → Option TradingHalt × Store
unfolding find_active_halt
deescalate_one_step s r now released_by st = elim (find_active_halt s r st) [
  | none ↦ (none, st)
  | some h ↦
      if is_emergency h.level
      then (some h, st)
      else (let relaxed = step_down now released_by h in
          (some relaxed, record st { halts = save (λ k. k.id) relaxed st.halts }))
]

unfoldable pub has_active_halt_at_or_above : HaltScope → Level → Store → Bool
has_active_halt_at_or_above s least st =
    any
      (λ h.
        in_scope s h && is_active h.status && leb (level_severity least) (level_severity h.level))
      st.halts
