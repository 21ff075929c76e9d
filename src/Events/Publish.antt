-- ===== src/Events/Publish.antt =====
-- The producer side of the outbox: `publish_system_event`.
use Prim.Native.String.{String}
use text.Mathlib.Text.{◌==◌ as str_eq}
use mathlib.Core.Option.{get_or}
use ai_system_trading.Money.Decimal.{Decimal}
use ai_system_trading.Prelude.{ℕ, suc, ◌+◌, Bool, Option, List, [], ◌∷◌, ◌++◌, if◌then◌else◌}

pub data Severity : Type 0 where
  info warning error critical : Severity

-- What a payload's dictionary holds under a key.
pub data Value : Type 0 where
  words : String → Value
  uuid : ℕ → Value
  uuids : List ℕ → Value
  -- a list of dictionaries of a bot and an error code
  coded : List (ℕ × String) → Value
  flag : Bool → Value
  number : ℕ → Value
  texts : List String → Value
  -- a decimal number, written out with `str`
  amount : Decimal → Value
  null : Value

abbrev pub Payload : Type 0
Payload = List (String × Value)

-- `payload[k] = v`: a key that is there keeps its place
abbrev set_item : String → Value → Payload → Payload
set_item k v [] = (k, v) ∷ []
set_item k v ((j, w) ∷ p) = if str_eq j k then (j, v) ∷ p else (j, w) ∷ set_item k v p

-- `payload.update(other)`
unfoldable pub update_payload : Payload → Payload → Payload
update_payload p [] = p
update_payload p ((k, v) ∷ other) = update_payload (set_item k v p) other

pub record SystemEvent : Type 0 where
  pub id : ℕ
  pub workspace_id : ℕ
  pub severity : Severity
  pub category : String
  pub event_type : String
  pub reason_code : Option String
  pub source_type : String
  pub source_id : Option ℕ
  pub target_type : Option String
  pub target_id : Option ℕ
  pub correlation_id : ℕ
  pub message : String
  pub payload : Payload

pub record OutboxEvent : Type 0 where
  pub aggregate_type : String
  pub aggregate_id : ℕ
  pub event_type : String
  pub payload : Payload
  pub correlation_id : ℕ

-- The two tables, in the order of insertion, and the next unused identifier.
pub record EventLog : Type 0 where
  pub system_events : List SystemEvent
  pub outbox : List OutboxEvent
  pub fresh : ℕ

-- The keyword arguments of `publish_system_event`.
pub record NewEvent : Type 0 where
  pub workspace_id : ℕ
  pub severity : Severity
  pub category : String
  pub event_type : String
  pub reason_code : Option String
  pub message : String
  pub payload : Payload
  pub aggregate_type : String
  pub aggregate_id : ℕ
  pub source_type : String
  pub source_id : Option ℕ
  pub target_type : Option String
  pub target_id : Option ℕ
  pub correlation_id : Option ℕ

-- `correlation_id or uuid4()`: a uuid is always true, so only `None` is replaced.
unfoldable pub publish_system_event : NewEvent → EventLog → SystemEvent × EventLog
publish_system_event e log =
    let correlation = get_or e.correlation_id log.fresh in
    let event : SystemEvent = record {
      id = suc log.fresh;
      workspace_id = e.workspace_id;
      severity = e.severity;
      category = e.category;
      event_type = e.event_type;
      reason_code = e.reason_code;
      source_type = e.source_type;
      source_id = e.source_id;
      target_type = e.target_type;
      target_id = e.target_id;
      correlation_id = correlation;
      message = e.message;
      payload = e.payload;
    } in
    let outgoing : OutboxEvent = record {
      aggregate_type = e.aggregate_type;
      aggregate_id = e.aggregate_id;
      event_type = e.event_type;
      payload = e.payload;
      correlation_id = correlation;
    } in
    (
      event,
      record {
        system_events = log.system_events ++ event ∷ [];
        outbox = log.outbox ++ outgoing ∷ [];
        fresh = log.fresh + 2;
      },
    )
