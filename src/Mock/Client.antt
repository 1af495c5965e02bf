-- ===== src/Mock/Client.antt =====
-- `MockClient` of receiver/opcua/testdata/mock_client.go.
mod Entries
pub mod Keys
pub mod Agreement
pub mod RoundTrip
pub mod Pages
use opentelemetry_collector.Common.{
  ℕ, ◌+◌, ◌-◌, ◌%◌, ◌^◌, Bool, true, false, not, List, [], ◌∷◌, Option, none, some, if◌then◌else◌,
  ℤ, pos, negsuc, Text, lit, Dict, insert,
}
use opentelemetry_collector.Client.Calls.{
  CallResult, Status, good, bad_invalid_argument, bad_continuation_point_invalid, bad_other, Output,
}
use opentelemetry_collector.Mock.Handler.{
  Argument, date_time, uint32, uint16, Handled, returned, panicked, default_call_handler,
}
use opentelemetry_collector.Mock.Server.{MockServer}
use opentelemetry_collector.Records.Parse.{
  Payload, field_at, as_time, as_uint16, as_byte, as_text, as_dict, as_slice, or_else,
}
use opentelemetry_collector.Value
use opentelemetry_collector.Value.{
  Value, Values, Fields, Time, zero_time, OpcuaLogRecord, stop, item, done, field,
}

-- `MockClient`; the server behind its pointer is an argument of the operations.
pub record MockClient : Type 0 where
  pub connected : Bool

-- `NewMockClient`
unfoldable pub new_mock_client : MockClient
new_mock_client = record { connected = false }

-- `Connect`, and whether it returned nil.
unfoldable pub connect : MockServer → MockClient → Bool × MockClient
connect s c =
    if c.connected
    then (false, c)
    else if not s.running
    then (false, c)
    else (true, record c { connected = true })

-- `Disconnect`, which always returns nil.
unfoldable pub disconnect : MockClient → MockClient
disconnect c = if not c.connected then c else record c { connected = false }

-- `IsConnected`
unfoldable pub is_connected : MockClient → Bool
is_connected c = c.connected

-- One item of "AdditionalData": it is taken if it is a map with a text under "Name".
take_item : Value → Dict Value → Dict Value
take_item (Value.dict nvp) attributes = elim (as_text (field_at (lit "Name") nvp)) [
  | none ↦ attributes
  | some name ↦ insert name (or_else (field_at (lit "Value") nvp) Value.nil) attributes
]
take_item _ attributes = attributes

pub take_items : Values → Dict Value → Dict Value
take_items stop attributes = attributes
take_items (item v vs) attributes = take_items vs (take_item v attributes)

-- `parseRecordMap`
unfoldable pub parse_record_map : Fields → OpcuaLogRecord
unfolding take_items take_item
parse_record_map m =
    let context = or_else (as_dict (field_at (lit "TraceContext") m)) done in
    record {
      timestamp = or_else (as_time (field_at (lit "Time") m)) zero_time;
      severity = or_else (as_uint16 (field_at (lit "Severity") m)) 0;
      message = or_else (as_text (field_at (lit "Message") m)) [];
      source_name = or_else (as_text (field_at (lit "SourceName") m)) [];
      source_namespace = 0;
      source_id_type = [];
      source_id = [];
      trace_id = or_else (as_text (field_at (lit "TraceId") context)) [];
      span_id = or_else (as_text (field_at (lit "SpanId") context)) [];
      trace_flags = or_else (as_byte (field_at (lit "TraceFlags") context)) 0;
      attributes = take_items (or_else (as_slice (field_at (lit "AdditionalData") m)) stop) [];
    }

-- Every map of the first output becomes a record; other items are skipped.
parse_maps : Values → List OpcuaLogRecord
parse_maps stop = []
parse_maps (item (Value.dict m) vs) = parse_record_map m ∷ parse_maps vs
parse_maps (item _ vs) = parse_maps vs

-- What a call of `GetRecords` ends with.
pub data Fetched : Type 0 where
  fetched : List OpcuaLogRecord → List ℕ → Fetched
  error panic : Fetched

-- The conversion `uint32(n)` of an int.
unfoldable pub to_uint32 : ℤ → ℕ
to_uint32 (pos n) = n % 2 ^ 32
to_uint32 (negsuc n) = 2 ^ 32 - 1 - n % 2 ^ 32

module _ {NodeId : Type 0} where
  -- The value of an output argument whose variant is not a nil pointer; on one, `Value` panics.
  records_of : Output NodeId → List OpcuaLogRecord
  records_of (Output.payload (Payload.values vs)) = parse_maps vs
  records_of _ = []

  point_of : Output NodeId → List ℕ
  point_of (Output.byte_string point) = point
  point_of _ = []

  read_outputs : List (Option (Output NodeId)) → Fetched
  read_outputs (some records ∷ some point ∷ outputs) = fetched (records_of records) (point_of point)
  read_outputs (records ∷ point ∷ outputs) = panic
  read_outputs _ = error

  read_result : Status → List (Option (Output NodeId)) → Fetched
  read_result good outputs = read_outputs outputs
  read_result bad_invalid_argument outputs = error
  read_result bad_continuation_point_invalid outputs = error
  read_result bad_other outputs = error

  read_answer : Handled NodeId → Fetched
  read_answer panicked = panic
  read_answer (returned result) = read_result result.status result.outputs

module _ (NodeId : Type 0) (must_variant : Values → Option Values) where
  -- `GetRecordsWithSeverity`
  unfoldable pub get_records_with_severity :
      MockServer → MockClient → Time → Time → ℤ → ℕ → List ℕ → Fetched
  unfolding read_answer read_result read_outputs records_of point_of parse_maps
  get_records_with_severity s c start_time end_time max_records min_severity point =
      if not c.connected
      then error
      else read_answer {NodeId = NodeId} (
          default_call_handler must_variant s 11550 (
            date_time start_time
            ∷ date_time end_time
            ∷ uint32 (to_uint32 max_records)
            ∷ uint16 min_severity
            ∷ uint32 0x1F
            ∷ Argument.byte_string point
            ∷ []))

  -- `GetRecords`
  unfoldable pub get_records : MockServer → MockClient → Time → Time → ℤ → List ℕ → Fetched
  get_records s c start_time end_time max_records point =
      get_records_with_severity s c start_time end_time max_records 0 point
