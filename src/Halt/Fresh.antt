-- ===== src/Halt/Fresh.antt =====
-- The identifiers that activating a halt takes.
use ai_system_trading.Prelude.{◌≤◌, inl, inr, arith, Bool-cases, Option-cases, ltb}
use ai_system_trading.Halt.Types.{level_severity, TradingHalt, Store, Activation}
use ai_system_trading.Halt.Announce.{announce}
use ai_system_trading.Halt.Transitions.{find_active_halt, create, escalate, activate_or_escalate}

create_later : (a : Activation) (st : Store) → st.log.fresh ≤ (create a st).1.log.fresh
unfolding create announce
create_later a st = omega arith

escalate_later :
    (a : Activation) (h : TradingHalt) (st : Store) → st.log.fresh ≤ (escalate a h st).1.log.fresh
unfolding escalate announce
escalate_later a h st = elim (Bool-cases (ltb (level_severity h.level) (level_severity a.level))) [
  | inl worse ↦ rw worse (omega arith)
  | inr no_worse ↦ rw no_worse (omega arith)
]

pub activate_or_escalate_later :
    (a : Activation) (st : Store) → st.log.fresh ≤ (activate_or_escalate a st).1.log.fresh
unfolding activate_or_escalate
activate_or_escalate_later a st = elim (Option-cases (find_active_halt a.scope a.reason_code st)) [
  | inl missing ↦ rw (missing, activate_or_escalate) (create_later a st)
  | inr (h, found) ↦ rw (found, activate_or_escalate) (escalate_later a h st)
]
