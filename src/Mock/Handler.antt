-- ===== src/Mock/Handler.antt =====
-- `defaultCallHandler` and `convertRecordsToVariant` of receiver/opcua/testdata/mock_server.go.
use opentelemetry_collector.Common.{
  ◌≡◌, Option, none, ℕ, ◌==◌, ◌&&◌, not, List, [], ◌∷◌, some, is_nil, if◌then◌else◌, ltb_ℤ, lit,
  is_empty, Dict,
}
use opentelemetry_collector.Client.Calls.{
  CallResult, Status, good, bad_invalid_argument, bad_other, Output, payload,
}
use opentelemetry_collector.Mock.Server.{MockServer, get_filtered_records}
use opentelemetry_collector.Records.Parse.{values}
use opentelemetry_collector.Value.{
  Value, Values, Fields, Time, OpcuaLogRecord, stop, item, done, field,
}

-- The value of an input argument, as far as the handler asserts its type.
pub data Argument : Type 0 where
  date_time : Time → Argument
  uint32 uint16 : ℕ → Argument
  byte_string : List ℕ → Argument

-- A type assertion that fails panics.
pub data Handled (NodeId : Type 0) : Type 0 where
  returned : CallResult NodeId → Handled NodeId
  panicked : Handled NodeId

-- The entries of "AdditionalData".
unfoldable pub name_values : Dict Value → Values
name_values [] = stop
name_values ((key, value) ∷ m) =
    item (Value.dict (field (lit "Name") (Value.text key) (field (lit "Value") value done)))
      (name_values m)

abbrev pub trace_context : OpcuaLogRecord → Fields
trace_context r = field (lit "TraceId") (Value.text r.trace_id) (
    field (lit "SpanId") (Value.text r.span_id)
      (field (lit "TraceFlags") (Value.uint8 r.trace_flags) done))

-- The fields that a record map has only under a condition.
unfoldable pub add_attributes : OpcuaLogRecord → Fields
add_attributes r =
    if is_nil r.attributes
    then done
    else field (lit "AdditionalData") (Value.slice (name_values r.attributes)) done

unfoldable pub add_trace_context : OpcuaLogRecord → Fields → Fields
add_trace_context r m =
    if is_empty r.trace_id && is_empty r.span_id
    then m
    else field (lit "TraceContext") (Value.dict (trace_context r)) m

unfoldable pub add_source_name : OpcuaLogRecord → Fields → Fields
add_source_name r m =
    if is_empty r.source_name then m else field (lit "SourceName") (Value.text r.source_name) m

-- The map of one record.
unfoldable pub record_map : OpcuaLogRecord → Fields
unfolding add_attributes add_trace_context add_source_name
record_map r = field (lit "Time") (Value.time r.timestamp) (
    field (lit "Severity") (Value.uint16 r.severity) (
      field (lit "Message") (Value.text r.message)
        (add_source_name r (add_trace_context r (add_attributes r)))))

-- `convertRecordsToVariant`: the value of the variant.
unfoldable pub convert_records_to_variant : List OpcuaLogRecord → Values
convert_records_to_variant [] = stop
convert_records_to_variant (r ∷ rs) =
    item (Value.dict (record_map r)) (convert_records_to_variant rs)

module _ {NodeId : Type 0} where
  abbrev pub refused_with : Status → Handled NodeId
  refused_with status = returned (record { status = status; outputs = [] })

-- `must_variant` is `ua.MustVariant` on a slice of `interface{}`: what the variant holds, or `none` if
-- it panics. On a byte string it always succeeds.
module _ {NodeId : Type 0} (must_variant : Values → Option Values) where
  answer_with : Option Values → List ℕ → Handled NodeId
  answer_with none next = panicked
  answer_with (some vs) next = returned (record {
    status = good;
    outputs = some (payload (values vs)) ∷ some (Output.byte_string next) ∷ [];
  })

  unfoldable pub sent_page : List OpcuaLogRecord × List ℕ → Handled NodeId
  unfolding answer_with
  sent_page (records, next) = answer_with (must_variant (convert_records_to_variant records)) next

  -- The handler behind the test of the number of arguments. The mask is not read.
  answer_arguments : MockServer → List Argument → Handled NodeId
  answer_arguments s
        (date_time start
          ∷ date_time end
          ∷ uint32 max_records
          ∷ uint16 min_severity
          ∷ mask
          ∷ byte_string point
          ∷ others) =
      if ltb_ℤ end start
      then refused_with bad_invalid_argument
      else sent_page (get_filtered_records s start end max_records min_severity point)
  answer_arguments s (a ∷ b ∷ c ∷ d ∷ e ∷ f ∷ others) = panicked
  answer_arguments s _ = refused_with bad_other

  -- `defaultCallHandler`, at the numeric identifier of the method.
  unfoldable pub default_call_handler : MockServer → ℕ → List Argument → Handled NodeId
  unfolding answer_arguments
  default_call_handler s method arguments =
      if not (method == 11550) then refused_with bad_other else answer_arguments s arguments

-- The variant holds every slice as it is.
abbrev pub HoldsSlices : (Values → Option Values) → Type 0
HoldsSlices must_variant = (vs : Values) → must_variant vs ≡ some vs
