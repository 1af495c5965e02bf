-- ===== src/Mock/Client/RoundTrip.antt =====
-- `parseRecordMap` of receiver/opcua/testdata/mock_client.go on the maps that
-- `convertRecordsToVariant` of receiver/opcua/testdata/mock_server.go makes.
use opentelemetry_collector.Common.{
  ◌≡◌, refl, ◌∙◌, ◌&&◌, [], ◌∷◌, if◌then◌else◌, ℕ, Text, lit, text_eq, is_empty, Dict,
}
use opentelemetry_collector.LogRecord.Codec.Entries.{IsDistinct}
use opentelemetry_collector.Mock.Client.{parse_record_map, take_items}
use opentelemetry_collector.Mock.Handler.{record_map, trace_context}
use opentelemetry_collector.Records.Parse.{
  field_at, as_text, as_dict, as_slice, as_time, as_uint16, as_byte, or_else,
}
use opentelemetry_collector.Value.{Value, Fields, Time, zero_time, OpcuaLogRecord, stop, done}
use opentelemetry_collector.Mock.Client.Entries.{take_items-name_values, AreNew-empty}
use opentelemetry_collector.Mock.Client.Keys.{
  at_source_name, at_trace_context, at_attributes, at_time, at_severity, at_message,
}

-- What a record is once it has been sent as a map: it has no source node, and no trace flags
-- without a trace id or a span id.
unfoldable pub shown : OpcuaLogRecord → OpcuaLogRecord
shown r = record r {
  source_namespace = 0;
  source_id_type = [];
  source_id = [];
  trace_flags = if is_empty r.trace_id && is_empty r.span_id then 0 else r.trace_flags;
}

-- What is made of the parts of a map.
abbrev assemble : Time → ℕ → Text → Text → Fields → Dict Value → OpcuaLogRecord
assemble time severity message source_name context attributes = record {
  timestamp = time;
  severity = severity;
  message = message;
  source_name = source_name;
  source_namespace = 0;
  source_id_type = [];
  source_id = [];
  trace_id = or_else (as_text (field_at (lit "TraceId") context)) [];
  span_id = or_else (as_text (field_at (lit "SpanId") context)) [];
  trace_flags = or_else (as_byte (field_at (lit "TraceFlags") context)) 0;
  attributes = attributes;
}

parse_parts :
    (m : Fields)
    → parse_record_map m
      ≡ assemble
          (or_else (as_time (field_at (lit "Time") m)) zero_time)
          (or_else (as_uint16 (field_at (lit "Severity") m)) 0)
          (or_else (as_text (field_at (lit "Message") m)) [])
          (or_else (as_text (field_at (lit "SourceName") m)) [])
          (or_else (as_dict (field_at (lit "TraceContext") m)) done)
          (take_items (or_else (as_slice (field_at (lit "AdditionalData") m)) stop) [])
unfolding parse_record_map
parse_parts m = refl

-- Without ids there is no context, and its flags read as zero.
assemble-trace_context :
    (r : OpcuaLogRecord) (t s : Text) (flags : ℕ)
    → assemble r.timestamp r.severity r.message r.source_name
        (if is_empty t && is_empty s
          then done
          else trace_context (record r { trace_id = t; span_id = s; trace_flags = flags }))
        r.attributes
      ≡ shown (record r { trace_id = t; span_id = s; trace_flags = flags })
unfolding shown field_at text_eq lit
assemble-trace_context r [] [] flags = refl
assemble-trace_context r [] (c ∷ s) flags = refl
assemble-trace_context r (c ∷ t) s flags = refl

-- The tests' client reads a record whose attributes have distinct names, sent by the tests'
-- server as a map, as the record without its source node, and without its trace flags where the
-- trace id and the span id are both empty.
pub parse_record_map-record_map :
    (r : OpcuaLogRecord) → IsDistinct r.attributes → parse_record_map (record_map r) ≡ shown r
parse_record_map-record_map r h =
    parse_parts (record_map r)
    ∙ rw
        (
          at_time r,
          at_severity r,
          at_message r,
          at_source_name r,
          at_trace_context r,
          at_attributes r,
          take_items-name_values r.attributes [] h (AreNew-empty r.attributes),
        )
        (assemble-trace_context r r.trace_id r.span_id r.trace_flags)
