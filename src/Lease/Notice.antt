-- ===== src/Lease/Notice.antt =====
-- `announce_stopped` of stop_notice.py.
use Prim.Native.String
use Prim.Native.String.{String}
use text.Mathlib.Text.{◌==◌ as str_eq}
use mathlib.Core.Option.{get_or}
use ai_system_trading.Prelude.{
  Bool, none, some, List, [], ◌∷◌, ◌&&◌, if◌then◌else◌, ◌==◌, nat_equality, string_equality,
  option_equality,
}
use ai_system_trading.Prelude.Rows.{any}
use ai_system_trading.Events.{
  Severity, warning, error, words, number, EventLog, NewEvent, publish_system_event,
}
use ai_system_trading.Lease.Types.{WorkFields, WorkRow, job, subscription, fields, Notices}

infixr 66 ◌+++◌
abbrev ◌+++◌ : String → String → String
s +++ t = String.◌++◌ s t

abbrev assoc : List (String × String) → String → String
assoc [] k = k
assoc ((j, label) ∷ labels) k = if str_eq j k then label else assoc labels k

-- `_CAUSE_LABEL.get(code, code)`
cause_label : String → String
cause_label = assoc (
    ("authentication_failed", "取引所の認証に失敗")
    ∷ ("credentials_missing", "資格情報が不足")
    ∷ ("credentials_unreadable", "保存済みの資格情報を読めない")
    ∷ ("access_unavailable", "有効な接続または選択口座が無い")
    ∷ ("access_changed", "取得中に接続または口座の設定が変わった")
    ∷ ("communication_failed", "取引所との通信に失敗")
    ∷ ("rate_limited", "取引所のレート制限")
    ∷ ("invalid_candles", "取引所から不正なローソク足を受信")
    ∷ ("worker_interrupted", "取得処理が繰り返し中断")
    ∷ [])

abbrev stop_severity : WorkRow → Severity
stop_severity (job b) = warning
stop_severity (subscription s) = error

abbrev what_stopped : WorkRow → String
what_stopped (job b) = "過去データの取得"
what_stopped (subscription s) = "ローソク足の自動取得"

abbrev payload_kind : WorkRow → String
payload_kind (job b) = "backfill"
payload_kind (subscription s) = "subscription"

abbrev table_name : WorkRow → String
table_name (job b) = "backfill_job"
table_name (subscription s) = "market_data_subscription"

stop_event : Notices → WorkRow → String → NewEvent
unfolding cause_label
stop_event n target error_code =
    let w = fields target in
    let id_text = n.uuid_text w.feed.instrument_id in
    let symbol = get_or (n.symbol w.feed.instrument_id) id_text in
    record {
      workspace_id = w.feed.workspace_id;
      severity = stop_severity target;
      category = "market_data";
      event_type = "market_data_stopped";
      reason_code = some error_code;
      message =
          symbol
          +++ " "
          +++ w.feed.timeframe
          +++ " の"
          +++ what_stopped target
          +++ "が停止しました(原因: "
          +++ cause_label error_code
          +++ ")";
      payload =
          ("kind", words (payload_kind target))
          ∷ ("symbol", words symbol)
          ∷ ("instrument_id", words id_text)
          ∷ ("timeframe", words w.feed.timeframe)
          ∷ ("error_code", words error_code)
          ∷ ("consecutive_failures", number w.consecutive_failures)
          ∷ [];
      aggregate_type = table_name target;
      aggregate_id = w.id;
      source_type = "market_data_worker";
      source_id = none;
      target_type = some "instrument";
      target_id = some w.feed.instrument_id;
      correlation_id = none;
    }

-- The count of notices of the same cause for the instrument within the quiet period, as a test.
abbrev pub already_told : Notices → WorkFields → String → EventLog → Bool
already_told n w error_code log =
    any
      (λ e.
        e.workspace_id == w.feed.workspace_id
        && (e.event_type == "market_data_stopped"
            && (e.target_id == some w.feed.instrument_id
                && (e.reason_code == some error_code && n.recent e.id))))
      log.system_events

unfoldable pub announce_stopped : Notices → WorkRow → String → EventLog → EventLog
unfolding stop_event publish_system_event
announce_stopped n target error_code log =
    let w = fields target in
    if already_told n w error_code log
    then log
    else (publish_system_event (stop_event n target error_code) log).1
