-- ===== src/Notify/Tests.antt =====
-- The theorems on the polls at a concrete outbox, and runs of the worker.
use ai_system_trading.Prelude.{◌*◌, ◌≤◌, ◌≡◌, refl, false, none, some, List, [], ◌∷◌, arith}
use ai_system_trading.Prelude.Rows.{length}
use ai_system_trading.Prelude.Table.{save}
use ai_system_trading.Events.{Severity, SystemEvent}
use ai_system_trading.Notify.Types.{pending, Db, Sending, delivered, refused, Outside}
use ai_system_trading.Notify.Deliver.{deliver_pending_notifications}
use ai_system_trading.Notify.Weight.{InOrder}
use ai_system_trading.Notify.Polls.{Poll, run, run-InOrder, run-bounded}

abbrev halted : SystemEvent
halted = record {
  id = 2;
  workspace_id = 1;
  severity = Severity.warning;
  category = "trading";
  event_type = "trading_halt.activated";
  reason_code = some "data_delay";
  source_type = "risk_gate";
  source_id = none;
  target_type = none;
  target_id = none;
  correlation_id = 1;
  message = "halted";
  payload = [];
}

abbrev one_event : Db
one_event = record {
  log = record { system_events = halted ∷ []; outbox = []; fresh = 10 };
  queue =
      record {
        id = 3;
        event_type = "trading_halt.activated";
        correlation_id = 1;
        status = pending;
        attempts = 0;
        available_at = 0;
        published_at = none;
      }
      ∷ [];
  notifications = [];
}

one_event-InOrder : InOrder one_event
one_event-InOrder = record {
  unique = (tt, tt);
  used = (omega arith, tt);
  waiting = ((λ _. omega arith), tt);
}

abbrev outside : Sending → Outside
outside how = record {
  send = λ channel. some (λ recipient event. how);
  resolve = λ e event. record { channel = "email"; recipient_ref = "a@example.org" } ∷ [];
  locked = λ e. false;
}

abbrev polls : List Poll
polls =
    record { outside = outside refused; now = 0 }
    ∷ record { outside = outside refused; now = 30 }
    ∷ record { outside = outside delivered; now = 60 }
    ∷ record { outside = outside delivered; now = 90 }
    ∷ []

-- The second poll is before the end of the backoff, the fourth after the delivery.
two_deliveries : (run polls one_event).0 ≡ 2
unfolding run deliver_pending_notifications save
two_deliveries = refl

run-InOrder_example : InOrder (run polls one_event).1
run-InOrder_example = run-InOrder polls one_event one_event-InOrder

run-bounded_example : (run polls one_event).0 ≤ 11 * length one_event.queue
run-bounded_example = run-bounded polls one_event one_event-InOrder
