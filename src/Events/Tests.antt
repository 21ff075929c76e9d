-- ===== src/Events/Tests.antt =====
-- The pairing theorem at a concrete event.
use ai_system_trading.Prelude.{none, []}
use ai_system_trading.Events.Publish.{info, NewEvent, EventLog, publish_system_event}
use ai_system_trading.Events.Pairing.{IsValid, none_left, publish_system_event-IsValid}

abbrev no_events : EventLog
no_events = record { system_events = []; outbox = []; fresh = 0 }

abbrev started_event : NewEvent
started_event = record {
  workspace_id = 1;
  severity = info;
  category = "system";
  event_type = "bot_started";
  reason_code = none;
  message = "started";
  payload = [];
  aggregate_type = "trading_bot";
  aggregate_id = 7;
  source_type = "worker";
  source_id = none;
  target_type = none;
  target_id = none;
  correlation_id = none;
}

no_events-IsValid : IsValid no_events
no_events-IsValid = record { paired = none_left; used = tt; unique = tt }

publish_system_event-IsValid_example :
    IsValid (publish_system_event started_event (publish_system_event started_event no_events).1).1
publish_system_event-IsValid_example =
    publish_system_event-IsValid started_event (publish_system_event started_event no_events).1
      (publish_system_event-IsValid started_event no_events no_events-IsValid)
