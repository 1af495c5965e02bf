-- ===== src/Records.antt =====
-- receiver/opcua/get_records.go: from decoded extension objects to the records that the
-- transformer takes.
pub mod Parse
pub mod Components
use opentelemetry_collector.Common.{
  ℕ, zero, suc, ◌+◌, ◌/◌, ◌%◌, List, [], ◌∷◌, ◌++◌, Option, none, some, ltb, ◌==◌, not,
  if◌then◌else◌, Text, lit, Dict, insert,
}
use opentelemetry_collector.LogRecord.Codec.{LogRecordExtObj, trace_id_hex, span_id_hex}
use opentelemetry_collector.Ua.NodeIds.{
  NodeIdApi, NodeIdType, two_byte, four_byte, numeric, string, guid, byte_string,
}
use opentelemetry_collector.Value.{Value, OpcuaLogRecord}

-- The decimal digits of a number below 10 ^ fuel.
unfoldable pub digits : ℕ → ℕ → Text
digits zero n = []
digits (suc fuel) n =
    let front = digits fuel (n / 10) in
    if ltb n 10 then (b'0' + n) ∷ [] else front ++ ((b'0' + n % 10) ∷ [])

-- `fmt.Sprintf("%d", n)` at a uint32, which has at most 10 digits.
unfoldable pub decimal : ℕ → Text
decimal n = digits 10 n

-- `record.Attributes[k] = v` for every entry of a map.
unfoldable pub promote : Dict Value → Dict Value → Dict Value
promote [] attributes = attributes
promote ((k, v) ∷ m) attributes = promote m (insert k v attributes)

module _ (ua : NodeIdApi) where
  open ua use {NodeId, namespace, type_of, int_id, string_id, print}

  typed_components : NodeIdType → NodeId → Text × Text
  typed_components string n = (lit "String", string_id n)
  typed_components guid n = (lit "Guid", print n)
  typed_components byte_string n = (lit "Opaque", decimal (int_id n))
  typed_components two_byte n = (lit "Numeric", decimal (int_id n))
  typed_components four_byte n = (lit "Numeric", decimal (int_id n))
  typed_components numeric n = (lit "Numeric", decimal (int_id n))

  -- `nodeIDComponents`: the namespace, the type and the identifier; `none` is the nil pointer.
  unfoldable pub node_id_components : Option NodeId → ℕ × Text × Text
  unfolding typed_components
  node_id_components none = (0, [], [])
  node_id_components (some n) =
      let (id_type, id) = typed_components (type_of n) n in (namespace n, id_type, id)

  -- `logRecordExtObjToRecord`
  unfoldable pub log_record_ext_obj_to_record : LogRecordExtObj NodeId → OpcuaLogRecord
  log_record_ext_obj_to_record l =
      let (ns, id_type, id) = node_id_components l.source_node in
      let traced = not (l.span_id == 0) in
      record {
        timestamp = l.time;
        severity = l.severity;
        message = l.message;
        source_name = l.source_name;
        source_namespace = ns;
        source_id_type = id_type;
        source_id = id;
        trace_id = if traced then trace_id_hex l else [];
        span_id = if traced then span_id_hex l else [];
        trace_flags = if traced then 0x01 else 0;
        attributes = promote l.additional_data [];
      }
