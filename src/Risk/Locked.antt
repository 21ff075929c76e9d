-- ===== src/Risk/Locked.antt =====
-- What the lock halts keep out.
use Prim.Native.String.{String}
use ai_system_trading.Prelude.{
  ℕ, ◌≤◌, ◌≡◌, ◌≢◌, refl, sym, true, false, ◌||◌, Option, none, some, inl, inr, arith, Bool-cases,
  Option-cases, ltb, max, is_ok, ◌==◌, string_equality,
}
use mathlib.Core.Path.{subst}
use ai_system_trading.Money.Decimal.{Decimal, less}
use ai_system_trading.Halt.{Level, level_severity, HaltScope, HaltEvent, Store, find_active_halt}
use ai_system_trading.Halt.Invariant.{IsValid, activate_or_escalate-IsValid}
use ai_system_trading.Halt.Escalation.{
  current, activate_or_escalate-current, activate_or_escalate-others,
}
use ai_system_trading.Bot.Types.{TradingBot}
use ai_system_trading.Trade.Types.{Instrument, Db, PlaceOrderCommand}
use ai_system_trading.Trade.Position.{open_position}
use ai_system_trading.Trade.Place.{is_closing_or_reducing, entry_blocked_by_halt, place_order}
use ai_system_trading.Trade.Halted.{place_order_blocked, account-blocks}
use ai_system_trading.Risk.Types.{Rules}
use ai_system_trading.Risk.Sync.{account_scope}
use ai_system_trading.Risk.Locks.{
  LockReading, lock, activate, lock_losses, lock_drawdown, reading_of, sync_lock_halts,
  drawdown_over,
}

-- After a lock's call: the table is valid, and every other cause of the scope is as it was.
record Locks (s : HaltScope) (r : String) (before after : Store) : Type 0 where
  valid : IsValid after
  others : (c : String) → c ≢ r → find_active_halt s c after ≡ find_active_halt s c before

severe_now : (before after : ℕ) → after ≡ max before 2 → 2 ≤ after
severe_now before after h = omega (arith, h)

-- The cause is locked, unless it had an active halt of the lowest level.
activate-Locks :
    (s : HaltScope) (r : String) (event : HaltEvent) (st : Store)
    → IsValid st
    → Locks s r st (activate s r event st).1
      × (current (find_active_halt s r st) ≢ 1
          → 2 ≤ current (find_active_halt s r (activate s r event st).1))
unfolding activate
activate-Locks s r event st v = elim (Option-cases (find_active_halt s r st)) [
  | inr (k, found) ↦
      rw (found, activate)
        (
          record { valid = v; others = λ c apart. refl },
          λ above. rw found (at_least_two k.level above),
        )
  | inl missing ↦
      let (active, raised) = activate_or_escalate-current (lock s r event) st v in
      rw (missing, activate)
        (
          record {
            valid = activate_or_escalate-IsValid (lock s r event) st v;
            others =
                λ c apart. activate_or_escalate-others (lock s r event) st s c v (λ h. apart h.1);
          },
          λ _. rw active (severe_now _ _ raised),
        )
]
  where
    at_least_two : (l : Level) → level_severity l ≢ 1 → 2 ≤ level_severity l
    at_least_two l above = ground (arith, above)

unlocked : (s : HaltScope) (r : String) (st : Store) → IsValid st → Locks s r st st
unlocked s r st v = record { valid = v; others = λ c apart. refl }

lock_losses-Locks :
    (s : HaltScope) (b : TradingBot) (rules : Rules) (reading : LockReading) (st : Store)
    → IsValid st
    → Locks s "consecutive_loss_limit" st (lock_losses s b rules reading st).1
      × (current (find_active_halt s "consecutive_loss_limit" st) ≢ 1
          → ltb rules.consecutive_loss_limit reading.consecutive_losses ≡ true
          → 2
            ≤ current
                (find_active_halt s "consecutive_loss_limit" (lock_losses s b rules reading st).1))
unfolding lock_losses
lock_losses-Locks s b rules reading st v =
    elim (Bool-cases (ltb rules.consecutive_loss_limit reading.consecutive_losses)) [
      | inl over ↦
          let (locks, severe) = activate-Locks s "consecutive_loss_limit" _ st v in
          rw over (locks, λ above _. severe above)
      | inr within ↦ rw within (unlocked s "consecutive_loss_limit" st v, λ above over. cc)
    ]

lock_drawdown-Locks :
    (s : HaltScope) (b : TradingBot) (rules : Rules) (pct : Option Decimal) (st : Store)
    → IsValid st
    → Locks s "peak_drawdown_limit" st (lock_drawdown s b rules pct st).1
      × (current (find_active_halt s "peak_drawdown_limit" st) ≢ 1
          → drawdown_over pct rules.peak_drawdown_limit ≡ true
          → 2
            ≤ current (find_active_halt s "peak_drawdown_limit" (lock_drawdown s b rules pct st).1))
unfolding lock_drawdown
lock_drawdown-Locks s b rules none st v = (unlocked s "peak_drawdown_limit" st v, λ above over. cc)
lock_drawdown-Locks s b rules (some pct) st v =
    elim (Bool-cases (less rules.peak_drawdown_limit pct)) [
      | inl over ↦
          let (locks, severe) = activate-Locks s "peak_drawdown_limit" _ st v in
          rw over (locks, λ above _. severe above)
      | inr within ↦ rw within (unlocked s "peak_drawdown_limit" st v, λ above over. cc)
    ]

distinct : (a b : String) → (a == b) ≡ false → a ≢ b
distinct a b differ same =
    let equal : (a == b) ≡ true = (string_equality.beq_iff a b).1 same in absurd (ground arith)

apart : ◌≢◌ {A = String} "consecutive_loss_limit" "peak_drawdown_limit"
apart = distinct "consecutive_loss_limit" "peak_drawdown_limit" refl

-- After the locks are synchronised the table is valid; and if a measure is beyond its limit, and no
-- lock of the account was at the lowest level, the account's entries are blocked.
sync_lock_halts-blocks :
    (account : ℕ) (b : TradingBot) (instrument : Instrument) (rules : Rules) (db : Db) (st : Store)
    (bot_id : Option ℕ)
    → IsValid st
    → current (find_active_halt (account_scope b.workspace_id account) "consecutive_loss_limit" st)
      ≢ 1
    → current (find_active_halt (account_scope b.workspace_id account) "peak_drawdown_limit" st) ≢ 1
    → (ltb rules.consecutive_loss_limit (reading_of account b instrument db st).consecutive_losses
        || drawdown_over
            (reading_of account b instrument db st).peak_drawdown_pct
            rules.peak_drawdown_limit)
      ≡ true
    → IsValid (sync_lock_halts account b instrument rules db st).1
      × (entry_blocked_by_halt b.workspace_id account bot_id
            (sync_lock_halts account b instrument rules db st).1
          ≡ true)
unfolding sync_lock_halts
sync_lock_halts-blocks account b instrument rules db st bot_id v no_loss_warning no_peak_warning
      over =
    let s = account_scope b.workspace_id account in
    let reading = reading_of account b instrument db st in
    let locked = (lock_losses s b rules reading st).1 in
    let (losses, lost) = lock_losses-Locks s b rules reading st v in
    let (drawdown, fallen) =
      lock_drawdown-Locks s b rules reading.peak_drawdown_pct locked losses.valid in
    let end = (lock_drawdown s b rules reading.peak_drawdown_pct locked).1 in
    (
      drawdown.valid,
      elim (Bool-cases (ltb rules.consecutive_loss_limit reading.consecutive_losses)) [
        | inl run ↦
            account-blocks b.workspace_id account bot_id "consecutive_loss_limit" end drawdown.valid
              (subst (λ h. 2 ≤ current h) (sym (drawdown.others "consecutive_loss_limit" apart))
                (lost no_loss_warning run))
        | inr few ↦
            account-blocks b.workspace_id account bot_id "peak_drawdown_limit" end drawdown.valid (
              fallen
                (subst (λ h. current h ≢ 1)
                  (sym (losses.others "peak_drawdown_limit" (λ h. apart (sym h)))) no_peak_warning)
                (ground arith))
      ],
    )

-- After the locks are synchronised, with a run of losses or a drawdown beyond the limit, and no
-- lock of the account at the lowest level before, no order of the account is placed that does not
-- close or reduce a position.
pub lock_stops_entries :
    (b : TradingBot) (instrument : Instrument) (rules : Rules) (db : Db) (st : Store)
    (c : PlaceOrderCommand) (later : ℕ) (then_db : Db)
    → IsValid st
    → current
        (find_active_halt (account_scope b.workspace_id c.account_id) "consecutive_loss_limit" st)
      ≢ 1
    → current
        (find_active_halt (account_scope b.workspace_id c.account_id) "peak_drawdown_limit" st)
      ≢ 1
    → (ltb rules.consecutive_loss_limit
          (reading_of c.account_id b instrument db st).consecutive_losses
        || drawdown_over
            (reading_of c.account_id b instrument db st).peak_drawdown_pct
            rules.peak_drawdown_limit)
      ≡ true
    → c.workspace_id ≡ b.workspace_id
    → is_closing_or_reducing c.side (open_position c.account_id c.instrument_id then_db) ≡ false
    → is_ok (place_order c later (sync_lock_halts c.account_id b instrument rules db st).1 then_db)
      ≡ false
lock_stops_entries b instrument rules db st c later then_db v no_loss no_peak over workspace opens =
    place_order_blocked c later (sync_lock_halts c.account_id b instrument rules db st).1 then_db
      (rw workspace
        (sync_lock_halts-blocks c.account_id b instrument rules db st c.bot_id v no_loss no_peak
          over).1)
      opens
