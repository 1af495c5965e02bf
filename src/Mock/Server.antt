-- ===== src/Mock/Server.antt =====
-- `MockServer` of receiver/opcua/testdata/mock_server.go: its store of records and the pages that
-- it hands out.
pub mod Pages
use opentelemetry_collector.Common.{
  ℕ, ◌+◌, ◌-◌, ◌*◌, ◌/◌, ◌%◌, ◌^◌, Bool, true, false, not, ◌&&◌, ◌||◌, List, [], ◌∷◌, ◌++◌, length,
  take, drop, leb, ltb, if◌then◌else◌, ltb_ℤ, Text, lit, is_empty,
}
use opentelemetry_collector.LogRecord.Hex.{put_little, get_little}
use opentelemetry_collector.Value.{Time, OpcuaLogRecord}

pub record MockServer : Type 0 where
  pub endpoint : Text
  pub records : List OpcuaLogRecord
  pub running : Bool

-- `NewMockServer`; the call handler is always `defaultCallHandler`.
unfoldable pub new_mock_server : Text → MockServer
new_mock_server endpoint = record {
  endpoint = if is_empty endpoint then lit "opc.tcp://127.0.0.1:4840" else endpoint;
  records = [];
  running = false;
}

-- `Start`: the new state, and whether it returned nil.
unfoldable pub start : MockServer → MockServer × Bool
start s = if s.running then (s, false) else (record s { running = true }, true)

-- `Stop`, which always returns nil.
unfoldable pub stop : MockServer → MockServer
stop s = if not s.running then s else record s { running = false }

unfoldable pub add_log_record : MockServer → OpcuaLogRecord → MockServer
add_log_record s r = record s { records = s.records ++ (r ∷ []) }

unfoldable pub add_log_records : MockServer → List OpcuaLogRecord → MockServer
add_log_records s rs = record s { records = s.records ++ rs }

unfoldable pub clear_log_records : MockServer → MockServer
clear_log_records s = record s { records = [] }

unfoldable pub get_log_records_count : MockServer → ℕ
get_log_records_count s = length s.records

-- `IsRunning` and `Endpoint`
unfoldable pub is_running : MockServer → Bool
is_running s = s.running

unfoldable pub endpoint_of : MockServer → Text
endpoint_of s = s.endpoint

-- The test that a record passes in the loop of `getFilteredRecords`.
unfoldable pub passes : Time → Time → ℕ → OpcuaLogRecord → Bool
passes start end min_severity r =
    if ltb_ℤ r.timestamp start || ltb_ℤ end r.timestamp
    then false
    else not (ltb r.severity min_severity)

unfoldable pub filter_records : Time → Time → ℕ → List OpcuaLogRecord → List OpcuaLogRecord
filter_records start end min_severity [] = []
filter_records start end min_severity (r ∷ rs) =
    let rest = filter_records start end min_severity rs in
    if passes start end min_severity r then r ∷ rest else rest

-- The place that a continuation point stands for: a little-endian uint32.
unfoldable pub start_index : List ℕ → ℕ
start_index point = if leb 4 (length point) then get_little (take 4 point) else 0

-- The records of one page and the next continuation point, from the filtered list.
unfoldable pub page_of : List OpcuaLogRecord → ℕ → List ℕ → List OpcuaLogRecord × List ℕ
page_of filtered max_records point =
    let start = start_index point in
    let left = drop start filtered in
    if leb (length filtered) start
    then ([], [])
    else if ltb 0 max_records && ltb max_records (length left)
    then (take max_records left, put_little 4 (start + max_records))
    else (left, [])

-- `getFilteredRecords`
unfoldable pub get_filtered_records :
    MockServer → Time → Time → ℕ → ℕ → List ℕ → List OpcuaLogRecord × List ℕ
get_filtered_records s start end max_records min_severity point =
    page_of (filter_records start end min_severity s.records) max_records point
