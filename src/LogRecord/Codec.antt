-- ===== src/LogRecord/Codec.antt =====
-- `LogRecordExtObj` of receiver/opcua/log_record_type.go, its `Decode` and `Encode`, and the
-- identifiers that it prints.
pub mod Entries
pub mod RoundTrip
pub mod Typed
use opentelemetry_collector.Common.{
  ℕ, zero, suc, ◌+◌, ◌*◌, ◌%◌, ◌^◌, ◌<◌, ◌&&◌, Bool, true, false, not, List, [], ◌∷◌, ◌++◌, Option,
  none, some, bit_and, ltb, ◌==◌, if◌then◌else◌, length, Text, is_empty, Dict, insert,
}
use opentelemetry_collector.Value.{Value, Time, zero_time}
use opentelemetry_collector.Ua.NodeIds.{NodeIdApi}
use opentelemetry_collector.Ua.Buffers.{BufferApi}
use opentelemetry_collector.LogRecord.Clock.{decode_time, encode_ticks}
use opentelemetry_collector.LogRecord.Hex.{encode_hex, hex_padded}
use opentelemetry_collector.LogRecord.Nodes.{read_node_id, write_node_id}
use opentelemetry_collector.LogRecord.TraceId.{read_trace_id, write_trace_id}
use opentelemetry_collector.LogRecord.Variants.{read_variant_value, write_variant_value}
use opentelemetry_collector.LogRecord.Wire.{State, ◌>>=◌, ◌>>◌, return, effect}

-- `none` is a nil pointer; a nil map is the empty one. The trace id is an array of 16 bytes.
pub record LogRecordExtObj (NodeId : Type 0) : Type 0 where
  pub time : Time
  pub severity : ℕ
  pub message : Text
  pub event_type_node : Option NodeId
  pub source_node : Option NodeId
  pub source_name : Text
  pub trace_id_bytes : List ℕ
  pub span_id : ℕ
  pub parent_span_id : ℕ
  pub parent_identifier : Text
  pub additional_data : Dict Value

-- `&LogRecordExtObj{}`
unfoldable pub fresh : (NodeId : Type 0) → LogRecordExtObj NodeId
fresh NodeId = record {
  time = zero_time;
  severity = 0;
  message = [];
  event_type_node = none;
  source_node = none;
  source_name = [];
  trace_id_bytes = 0 ∷ 0 ∷ 0 ∷ 0 ∷ 0 ∷ 0 ∷ 0 ∷ 0 ∷ 0 ∷ 0 ∷ 0 ∷ 0 ∷ 0 ∷ 0 ∷ 0 ∷ 0 ∷ [];
  span_id = 0;
  parent_span_id = 0;
  parent_identifier = [];
  additional_data = [];
}

-- A value is stored under its name unless that is empty.
abbrev pub store : Text → Value → Dict Value → Dict Value
store name value m = if is_empty name then m else insert name value m

module _ {NodeId : Type 0} where
  -- `(*LogRecordExtObj).TraceIDHex`
  unfoldable pub trace_id_hex : LogRecordExtObj NodeId → Text
  trace_id_hex l = if l.span_id == 0 then [] else encode_hex l.trace_id_bytes

  -- `(*LogRecordExtObj).SpanIDHex`
  unfoldable pub span_id_hex : LogRecordExtObj NodeId → Text
  span_id_hex l = if l.span_id == 0 then [] else hex_padded 16 l.span_id

module _ (ua : NodeIdApi) (bufs : BufferApi) where
  open ua use {NodeId}
  open bufs use {
    Buffer, Error, new_buffer, pos, error, bytes, read_byte, read_uint16, read_uint32, read_int64,
    read_string, write_byte, write_uint16, write_uint32, write_int64, write_string,
  }

  -- A string that stands on the wire only if a bit of the mask is set.
  read_string_if : Bool → Text → State Buffer Text
  read_string_if present old = if present then read_string else return old

  -- The loop of `Decode` over the additional data, with the rounds left.
  read_pairs : ℕ → Dict Value → State Buffer (Dict Value)
  read_pairs zero m = return m
  read_pairs (suc left) m = do
    name ← read_string
    value ← read_variant_value bufs
    read_pairs left (store name value m)

  -- The count is cast to an int32, and the map is made anew only if that is positive.
  read_additional_data : ℕ → Dict Value → State Buffer (Dict Value)
  read_additional_data count old =
      if ltb 0 count && ltb count (2 ^ 31) then read_pairs count [] else return old

  decode_fields : LogRecordExtObj NodeId → State Buffer (LogRecordExtObj NodeId)
  decode_fields l = do
    ticks ← read_int64
    severity ← read_uint16
    event_type_node ← read_node_id ua bufs
    source_node ← read_node_id ua bufs
    source_name ← read_string
    encoding_mask ← read_byte
    locale ← read_string_if (not (bit_and encoding_mask 0x01 == 0)) []
    message ← read_string_if (not (bit_and encoding_mask 0x02 == 0)) l.message
    trace_id_bytes ← read_trace_id bufs
    span_id ← read_int64
    parent_span_id ← read_int64
    parent_identifier ← read_string
    count ← read_uint32
    additional_data ← read_additional_data count l.additional_data
    return (record {
      time = decode_time ticks l.time;
      severity = severity;
      message = message;
      event_type_node = some event_type_node;
      source_node = some source_node;
      source_name = source_name;
      trace_id_bytes = trace_id_bytes;
      span_id = span_id;
      parent_span_id = parent_span_id;
      parent_identifier = parent_identifier;
      additional_data = additional_data;
    })

  -- `(*LogRecordExtObj).Decode`: the object as it is left, the position, and the buffer's error.
  unfoldable pub decode :
      LogRecordExtObj NodeId → List ℕ → LogRecordExtObj NodeId × ℕ × Option Error
  unfolding decode_fields read_additional_data read_pairs read_string_if
  decode l b = let (l', buf) = decode_fields l (new_buffer b) in (l', pos buf, error buf)

  write_pairs : Dict Value → State Buffer (Unit {0})
  write_pairs [] = return tt
  write_pairs ((name, value) ∷ m) = do
    effect write_string name
    write_variant_value bufs value
    write_pairs m

  encode_fields : LogRecordExtObj NodeId → State Buffer (Unit {0})
  encode_fields l = do
    effect write_int64 (encode_ticks l.time)
    effect write_uint16 l.severity
    write_node_id ua bufs l.event_type_node
    write_node_id ua bufs l.source_node
    effect write_string l.source_name
    effect write_byte 0x02
    effect write_string l.message
    write_trace_id bufs l.trace_id_bytes
    effect write_int64 l.span_id
    effect write_int64 l.parent_span_id
    effect write_string l.parent_identifier
    effect write_uint32 (length l.additional_data % 2 ^ 32)
    write_pairs l.additional_data

  -- `(*LogRecordExtObj).Encode`
  unfoldable pub encode : LogRecordExtObj NodeId → List ℕ × Option Error
  unfolding encode_fields write_pairs
  encode l = let (_, buf) = encode_fields l (new_buffer []) in (bytes buf, error buf)
