-- ===== src/Halt/Keys.antt =====
-- Which rows a cause's query reads: scope and reason code are a row's key.
use Prim.Native.String.{String}
use ai_system_trading.Prelude.{
  string_equality, ◌≡◌, sym, ◌∙◌, Bool, true, false, ◌&&◌, arith, ◌==◌, beq_refl, Bool-cases, inl,
  inr, nat_equality, option_equality,
}
use ai_system_trading.Halt.Types.{scope_type_equality, active, HaltScope, TradingHalt}
use ai_system_trading.Halt.Transitions.{in_scope, active_for}

-- The scope that a row stands in.
abbrev pub scope_of : TradingHalt → HaltScope
scope_of h = record {
  workspace_id = h.workspace_id;
  scope_type = h.scope_type;
  scope_id = h.scope_id;
}

and_true : (a b : Bool) → (a && b) ≡ true → (a ≡ true) × (b ≡ true)
and_true a b h = ground arith

in_scope-eq : (s : HaltScope) (h : TradingHalt) → in_scope s h ≡ true → scope_of h ≡ s
in_scope-eq s h e =
    let (w, rest) = and_true (h.workspace_id == s.workspace_id) _ e in
    let (t, i) = and_true (h.scope_type == s.scope_type) _ rest in
    let w' : h.workspace_id ≡ s.workspace_id = (nat_equality.beq_iff _ _).0 w in
    let t' : h.scope_type ≡ s.scope_type = (scope_type_equality.beq_iff _ _).0 t in
    let i' : h.scope_id ≡ s.scope_id = (option_equality.beq_iff _ _).0 i in
    λ j. record { workspace_id = w' j; scope_type = t' j; scope_id = i' j }

-- A row that answers a cause's query has that scope and that reason, and is active.
pub active_for-key :
    (s : HaltScope) (r : String) (h : TradingHalt)
    → active_for s r h ≡ true
    → (scope_of h ≡ s) × (h.reason_code ≡ r)
active_for-key s r h e =
    let (scope, rest) = and_true (in_scope s h) _ e in
    let (reason, status) = and_true (h.reason_code == r) _ rest in
    (in_scope-eq s h scope, (string_equality.beq_iff _ _).0 reason)

pub active_for_own :
    (h : TradingHalt) → h.status ≡ active → active_for (scope_of h) h.reason_code h ≡ true
active_for_own h e =
    rw (
      beq_refl h.workspace_id,
      beq_refl h.scope_type,
      beq_refl h.scope_id,
      beq_refl h.reason_code,
      e,
    )

-- A row of one cause does not answer another's query.
pub active_for_other :
    (s t : HaltScope) (r c : String) (h : TradingHalt)
    → scope_of h ≡ t
    → h.reason_code ≡ c
    → ¬ ((s ≡ t) × (r ≡ c))
    → active_for s r h ≡ false
active_for_other s t r c h scope code other = elim (Bool-cases (active_for s r h)) [
  | inl answers ↦
      let (scope', code') = active_for-key s r h answers in
      absurd (other (sym scope' ∙ scope, sym code' ∙ code))
  | inr silent ↦ silent
]
