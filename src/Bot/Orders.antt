-- ===== src/Bot/Orders.antt =====
-- `_cancel_open_orders`, and `cancel_order` of app/trading/application/order_flow.py with the
-- status trail that it writes.
use Prim.Native.String.{String}
use ai_system_trading.Prelude.{
  ℕ, Bool, ◌&&◌, List, [], ◌∷◌, ◌++◌, if◌then◌else◌, Result, ok, err, ◌>>=◌, ◌==◌, nat_equality,
}
use ai_system_trading.Prelude.Rows.{select}
use ai_system_trading.Prelude.Table.{save}
use ai_system_trading.Events.{words}
use ai_system_trading.Bot.Types.{
  OrderStatus, cancelled, TradingBot, TradeOrder, StatusChange, AuditRow, Db, is_cancellable,
  LifecycleError, invalid_status_transition,
}

abbrev pub status_text : OrderStatus → String
status_text OrderStatus.pending = "pending"
status_text OrderStatus.submitted = "submitted"
status_text OrderStatus.partially_filled = "partially_filled"
status_text OrderStatus.filled = "filled"
status_text OrderStatus.cancel_pending = "cancel_pending"
status_text OrderStatus.cancelled = "cancelled"
status_text OrderStatus.rejected = "rejected"
status_text OrderStatus.expired = "expired"
status_text OrderStatus.unknown = "unknown"

-- `_set_status` with `_record_status`: the status and its history row change together.
unfoldable pub set_status : TradeOrder → OrderStatus → String → ℕ → Db → TradeOrder × Db
set_status o to reason now db =
    let o' = record o { status = to; updated_at = now } in
    let change : StatusChange = record {
      order_id = o.id;
      from_status = o.status;
      to_status = to;
      reason_code = reason;
      occurred_at = now;
    } in
    (o', record db { orders = save (λ x. x.id) o' db.orders; history = db.history ++ change ∷ [] })

-- `cancel_order` after its guard.
unfoldable pub mark_cancelled : TradeOrder → String → ℕ → Db → TradeOrder × Db
unfolding set_status
mark_cancelled o reason now db =
    let (o', db') = set_status o cancelled reason now db in
    let row : AuditRow = record {
      workspace_id = o.workspace_id;
      action = "trade_order.cancelled";
      resource_type = "trade_order";
      resource_id = o.id;
      after_data =
          ("reason_code", words reason) ∷ ("previous_status", words (status_text o.status)) ∷ [];
    } in
    (o', record db' { audit = db'.audit ++ row ∷ [] })

unfoldable pub cancel_order : TradeOrder → String → ℕ → Db → Result LifecycleError (TradeOrder × Db)
unfolding mark_cancelled
cancel_order o reason now db =
    if is_cancellable o.status
    then ok (mark_cancelled o reason now db)
    else err invalid_status_transition

-- The list comprehension: one cancellation after the other.
unfoldable pub cancel_each :
    List TradeOrder → String → ℕ → Db → Result LifecycleError (List TradeOrder × Db)
cancel_each [] reason now db = ok ([], db)
cancel_each (o ∷ os) reason now db = do
  (o', db') ← cancel_order o reason now db
  (rest, db'') ← cancel_each os reason now db'
  ok (o' ∷ rest, db'')

abbrev pub open_order : ℕ → TradeOrder → Bool
open_order account o = o.account_id == account && is_cancellable o.status

unfoldable pub cancel_open_orders :
    TradingBot → String → ℕ → Db → Result LifecycleError (List TradeOrder × Db)
unfolding cancel_each
cancel_open_orders b reason now db =
    cancel_each (select (open_order b.account_id) db.orders) reason now db
