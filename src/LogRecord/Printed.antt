-- ===== src/LogRecord/Printed.antt =====
-- `String` of receiver/opcua/log_record_type.go.
use opentelemetry_collector.Common.{
  ◌==◌, Option, none, some, List, [], ◌∷◌, ◌++◌, length, if◌then◌else◌, Text, lit,
}
use opentelemetry_collector.LogRecord.Codec.{LogRecordExtObj}
use opentelemetry_collector.LogRecord.Hex.{encode_hex, hex_padded}
use opentelemetry_collector.Records.{digits, decimal}
use opentelemetry_collector.Ua.NodeIds.{NodeIdApi}
use opentelemetry_collector.Value.{Time}

-- What `String` uses of the packages time and fmt: the layout RFC3339, and `%q`.
pub record PrintApi : Type 0 where
  pub format_rfc3339 : Time → Text
  pub quote : Text → Text

joined : List Text → Text
joined [] = []
joined (s ∷ ss) = s ++ joined ss

module _ (ua : NodeIdApi) (print : PrintApi) where
  open ua use {NodeId}
  open print use {format_rfc3339, quote}

  abbrev node_text : Option NodeId → Text
  node_text none = []
  node_text (some n) = ua.print n

  -- The number of entries is a 64-bit int, which has at most 20 digits.
  unfoldable pub to_string : LogRecordExtObj NodeId → Text
  unfolding joined
  to_string l =
      let trace_id = if l.span_id == 0 then [] else encode_hex l.trace_id_bytes in
      joined (
        lit "LogRecord{Time: "
        ∷ format_rfc3339 l.time
        ∷ lit ", Severity: "
        ∷ decimal l.severity
        ∷ lit ", Message: "
        ∷ quote l.message
        ∷ lit ", SourceName: "
        ∷ quote l.source_name
        ∷ lit ", SourceNode: "
        ∷ quote (node_text l.source_node)
        ∷ lit ", TraceID: "
        ∷ quote trace_id
        ∷ lit ", SpanID: "
        ∷ hex_padded 16 l.span_id
        ∷ lit ", AdditionalData: "
        ∷ digits 20 (length l.additional_data)
        ∷ lit "}"
        ∷ [])
