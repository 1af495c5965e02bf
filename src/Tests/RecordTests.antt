-- ===== src/Tests/RecordTests.antt =====
-- Runs of receiver/opcua/get_records.go and transformer.go on concrete libraries.
use opentelemetry_collector.Common.{
  lit, ◌≡◌, refl, [], ◌∷◌, none, some, length, map, pos, lookup, arith,
}
use opentelemetry_collector.Pdata.Concrete.{pdata, empty_record}
use opentelemetry_collector.Pdata.{View}
use opentelemetry_collector.Records.{
  decimal, digits, node_id_components, log_record_ext_obj_to_record,
}
use opentelemetry_collector.Records.Components.{
  node_through, wire_components, node_id_components-node_through,
}
use opentelemetry_collector.Records.Parse.{parse_extension_object_array}
use opentelemetry_collector.Records.Parse.Arrays.{sent, received, parse_extension_object_array-sent}
use opentelemetry_collector.Tests.WireTests.{sample, sample-IsWire}
use opentelemetry_collector.Transformer.{
  StdApi, set_resource_attributes, new_transformer, transform_log_record, transform_logs,
}
use opentelemetry_collector.LogRecord.Codec.Typed.{fresh-IsTyped}
use opentelemetry_collector.Common.{All, Option, List}
use opentelemetry_collector.Records.Parse.{Body, raw, decoded}
use opentelemetry_collector.Pipeline.Traced.{HasIds, parse_extension_object_array-HasIds}
use opentelemetry_collector.Records.Parse.Typed.{
  IsReceived, parse_extension_object_array-IsReceived,
}
use opentelemetry_collector.LogRecord.Codec.{fresh}
use opentelemetry_collector.Ua.Concrete.Typed.{buffers-TypedReads}
use mathlib.Core.Option
use opentelemetry_collector.Common.{ℕ, get_elem?}
use opentelemetry_collector.Transformer.Each.{get_elem?-transform_logs}
use opentelemetry_collector.Transformer.Attributes.{
  attribute_of, source_attribute, get-transform_log_record,
}
use opentelemetry_collector.Transformer.Frame.{
  AgreesOutsideTrace, described, transform_log_record-AgreesOutsideTrace,
}
use opentelemetry_collector.Transformer.Resource.{resource_attribute, get-set_resource_attributes}
use opentelemetry_collector.Transformer.Trace.{Traced, transform_log_record-Traced}
use opentelemetry_collector.Ua.Concrete.{Node, name, node_ids, buffers}
use opentelemetry_collector.Value.{Value, OpcuaLogRecord}

abbrev pub std : StdApi
std = record {
  parse_host = λ s. none;
  split_host_port = λ s. none;
  parse_int = λ s. none;
  sprint = λ v. [];
}

decimal_test : decimal 2042 ≡ b'2' ∷ b'0' ∷ b'4' ∷ b'2' ∷ []
unfolding decimal digits
decimal_test = refl

-- A string in namespace 0 does not survive the wire.
node_id_components-node_through_example :
    node_id_components node_ids (some (node_through node_ids buffers (some (name 0 (b'P' ∷ [])))))
    ≡ wire_components node_ids buffers (some (name 0 (b'P' ∷ [])))
node_id_components-node_through_example =
    node_id_components-node_through node_ids buffers (some (name 0 (b'P' ∷ []))) (omega arith)

parse_extension_object_array-sent_example :
    parse_extension_object_array node_ids buffers (map (sent node_ids buffers) (sample ∷ []))
    ≡ map (received node_ids buffers) (sample ∷ [])
parse_extension_object_array-sent_example =
    parse_extension_object_array-sent node_ids buffers (sample ∷ []) (sample-IsWire, tt)

transform_log_record-Traced_example : Traced node_ids pdata std sample (
    transform_log_record pdata std
      (pos 5)
      (log_record_ext_obj_to_record node_ids sample)
      empty_record)
transform_log_record-Traced_example =
    transform_log_record-Traced node_ids pdata std (pos 5) sample empty_record (omega arith) refl
      (omega arith)

abbrev pub opcua_record : OpcuaLogRecord
opcua_record = record {
  timestamp = pos 7;
  severity = 150;
  message = b'm' ∷ [];
  source_name = b'S' ∷ [];
  source_namespace = 2;
  source_id_type = b'N' ∷ [];
  source_id = b'4' ∷ [];
  trace_id = [];
  span_id = [];
  trace_flags = 0;
  attributes = (b'k' ∷ [], Value.int 5) ∷ [];
}

get-transform_log_record_example :
    pdata.get
      (View.attributes (transform_log_record pdata std (pos 5) opcua_record empty_record))
      (b'k' ∷ [])
    ≡ elim (lookup (b'k' ∷ []) opcua_record.attributes) [
      | none ↦ source_attribute pdata std opcua_record (b'k' ∷ [])
      | some v ↦ some (attribute_of pdata std v)
    ]
unfolding lookup
get-transform_log_record_example =
    get-transform_log_record pdata std (pos 5) opcua_record (b'k' ∷ []) (refl, tt)

get_elem?-transform_logs_example :
    let rs = opcua_record ∷ record opcua_record { severity = 300 } ∷ [] in
    let logs = transform_logs pdata std (new_transformer [] [] []) (λ i. pos i) rs in
    (pdata.log_record_count logs ≡ length rs)
    × ((i : ℕ)
        → get_elem? (pdata.log_records logs) i
          ≡ Option.map
              (λ (r : OpcuaLogRecord). transform_log_record pdata std (pos i) r empty_record)
              (get_elem? rs i))
get_elem?-transform_logs_example =
    get_elem?-transform_logs pdata std (new_transformer [] [] []) (λ i. pos i)
      (opcua_record ∷ record opcua_record { severity = 300 } ∷ [])

transform_log_record-AgreesOutsideTrace_example :
    AgreesOutsideTrace pdata std
      (transform_log_record pdata std (pos 5) opcua_record empty_record)
      (described pdata std (pos 5) opcua_record empty_record)
transform_log_record-AgreesOutsideTrace_example =
    transform_log_record-AgreesOutsideTrace pdata std (pos 5) opcua_record empty_record

get-set_resource_attributes_example :
    pdata.get (set_resource_attributes pdata std (new_transformer [] [] []) []) (lit "service.name")
    ≡ resource_attribute pdata std (new_transformer [] [] []) (lit "service.name")
get-set_resource_attributes_example =
    get-set_resource_attributes pdata std (new_transformer [] [] []) (lit "service.name")

-- A body of nine bytes, a nil pointer, and a record with no content.
abbrev mixed : List (Option (Body Node))
mixed =
    some (raw (1 ∷ 2 ∷ 3 ∷ 4 ∷ 5 ∷ 6 ∷ 7 ∷ 8 ∷ 255 ∷ []))
    ∷ none
    ∷ some (decoded (some (fresh Node)))
    ∷ []

parse_extension_object_array-IsReceived_example :
    All IsReceived (parse_extension_object_array node_ids buffers mixed)
parse_extension_object_array-IsReceived_example =
    parse_extension_object_array-IsReceived node_ids buffers mixed buffers-TypedReads
      (omega arith, (tt, (fresh-IsTyped Node, tt)))

parse_extension_object_array-HasIds_example :
    All
      (λ o. HasIds pdata std empty_record (transform_log_record pdata std (pos 5) o empty_record))
      (parse_extension_object_array node_ids buffers mixed)
parse_extension_object_array-HasIds_example =
    parse_extension_object_array-HasIds node_ids buffers pdata std mixed (pos 5) empty_record
      buffers-TypedReads (omega arith, (tt, (fresh-IsTyped Node, tt)))
