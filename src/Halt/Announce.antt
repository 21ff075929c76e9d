-- ===== src/Halt/Announce.antt =====
-- `_announce`: the system event and outbox row of a halt that was created or raised.
use Prim.Native.String.{String, ◌++◌}
use text.Mathlib.Text.{◌==◌ as str_eq}
use ai_system_trading.Prelude.{ℕ, Option, none, some, List, [], ◌∷◌, if◌then◌else◌}
use ai_system_trading.Events.{
  Value, words, uuid, null, Payload, update_payload, SystemEvent, EventLog, NewEvent,
  publish_system_event,
}
use ai_system_trading.Halt.Types.{
  Level, warning, entry_halted, all_trading_halted, emergency_stopped, severity_by_level, ScopeType,
  system, workspace, connection, account, bot, instrument, HaltEvent, TradingHalt,
}

-- `halt.level` and `halt.scope_type` as the texts that the columns hold
abbrev level_text : Level → String
level_text warning = "warning"
level_text entry_halted = "entry_halted"
level_text all_trading_halted = "all_trading_halted"
level_text emergency_stopped = "emergency_stopped"

abbrev pub scope_type_text : ScopeType → String
scope_type_text system = "system"
scope_type_text workspace = "workspace"
scope_type_text connection = "connection"
scope_type_text account = "account"
scope_type_text bot = "bot"
scope_type_text instrument = "instrument"

-- `_LEVEL_LABEL`
abbrev level_label : Level → String
level_label warning = "警告"
level_label entry_halted = "新規建玉の停止"
level_label all_trading_halted = "全取引の停止"
level_label emergency_stopped = "緊急停止"

abbrev assoc : List (String × String) → String → String
assoc [] k = k
assoc ((j, label) ∷ labels) k = if str_eq j k then label else assoc labels k

-- `_REASON_LABEL.get(code, code)`
reason_label : String → String
reason_label = assoc (
    ("consecutive_loss_limit", "連敗の上限")
    ∷ ("peak_drawdown_limit", "最大ドローダウンの上限")
    ∷ ("data_delay", "データ遅延")
    ∷ ("daily_loss_dd_limit", "日次・週次の損失または最大ドローダウンの上限")
    ∷ ("user_emergency_stop", "利用者の緊急停止")
    ∷ ("ledger_mismatch", "注文・台帳の不整合")
    ∷ [])

-- `_SCOPE_LABEL.get(type, type)`
abbrev scope_label : ScopeType → String
scope_label bot = "Bot"
scope_label account = "口座"
scope_label workspace = "ワークスペース全体"
scope_label other = scope_type_text other

default_message : TradingHalt → Option Level → String
unfolding reason_label
default_message halt none =
    reason_label halt.reason_code
    ++ "により、"
    ++ scope_label halt.scope_type
    ++ "が"
    ++ level_label halt.level
    ++ "になりました"
default_message halt (some previous) =
    reason_label halt.reason_code
    ++ "が悪化し、"
    ++ scope_label halt.scope_type
    ++ "が"
    ++ level_label previous
    ++ "から"
    ++ level_label halt.level
    ++ "になりました"

abbrev optional_uuid : Option ℕ → Value
optional_uuid none = null
optional_uuid (some i) = uuid i

abbrev optional_level : Option Level → Value
optional_level none = null
optional_level (some l) = words (level_text l)

abbrev halt_payload : TradingHalt → Option Level → Payload
halt_payload halt previous =
    ("halt_id", uuid halt.id)
    ∷ ("scope_type", words (scope_type_text halt.scope_type))
    ∷ ("scope_id", optional_uuid halt.scope_id)
    ∷ ("level", words (level_text halt.level))
    ∷ ("previous_level", optional_level previous)
    ∷ ("reason_code", words halt.reason_code)
    ∷ []

-- The event's own value if the cause gave an event, else the default.
abbrev from_event {ℓ} : {A : Type ℓ} → Option HaltEvent → (HaltEvent → A) → A → A
from_event none field d = d
from_event (some e) field d = field e

-- The arguments of `publish_system_event`; `previous` is `None` for a new halt.
unfoldable pub announcement : TradingHalt → Option HaltEvent → Option Level → NewEvent
unfolding default_message update_payload
announcement halt event previous = record {
  workspace_id = halt.workspace_id;
  severity = severity_by_level halt.level;
  category = "risk";
  event_type = from_event event (λ e. e.event_type) ("trading_halt." ++ halt.reason_code);
  reason_code = some halt.reason_code;
  message = from_event event (λ e. e.message) (default_message halt previous);
  payload = update_payload (halt_payload halt previous) (from_event event (λ e. e.payload) []);
  aggregate_type = "trading_halt";
  aggregate_id = halt.id;
  source_type = from_event event (λ e. e.source_type) "risk_gate";
  source_id = from_event event (λ e. e.source_id) none;
  target_type = some (scope_type_text halt.scope_type);
  target_id = halt.scope_id;
  correlation_id = from_event event (λ e. e.correlation_id) none;
}

unfoldable pub announce :
    TradingHalt → Option HaltEvent → Option Level → EventLog → SystemEvent × EventLog
unfolding publish_system_event
announce halt event previous = publish_system_event (announcement halt event previous)
