-- ===== src/Records/Parse.antt =====
-- The parsers of receiver/opcua/get_records.go for the formats in which a server's records come.
pub mod Arrays
pub mod Truncated
pub mod Typed
use opentelemetry_collector.Common.{
  ℕ, List, [], ◌∷◌, Option, none, some, is_nil, if◌then◌else◌, Text, lit, text_eq, is_empty, Dict,
  insert,
}
use opentelemetry_collector.LogRecord.Codec.{LogRecordExtObj, fresh, decode}
use opentelemetry_collector.Records.{node_id_components, log_record_ext_obj_to_record}
use opentelemetry_collector.Ua.Buffers.{BufferApi}
use opentelemetry_collector.Ua.NodeIds.{NodeIdApi}
use opentelemetry_collector.Value
use opentelemetry_collector.Value.{
  Value, Values, Fields, OpcuaLogRecord, Time, zero_time, stop, item, done, field,
}

-- `m[key]`
unfoldable pub field_at : Text → Fields → Option Value
field_at k done = none
field_at k (field j v m) = if text_eq j k then some v else field_at k m

-- A type assertion on `m[key]`: the value if it is there and has the type.
abbrev pub as_time : Option Value → Option Time
as_time (some (Value.time t)) = some t
as_time _ = none

abbrev pub as_uint16 : Option Value → Option ℕ
as_uint16 (some (Value.uint16 n)) = some n
as_uint16 _ = none

abbrev pub as_byte : Option Value → Option ℕ
as_byte (some (Value.uint8 n)) = some n
as_byte _ = none

abbrev pub as_text : Option Value → Option Text
as_text (some (Value.text s)) = some s
as_text _ = none

abbrev pub as_dict : Option Value → Option Fields
as_dict (some (Value.dict m)) = some m
as_dict _ = none

abbrev pub as_slice : Option Value → Option Values
as_slice (some (Value.slice vs)) = some vs
as_slice _ = none

abbrev pub or_else : {A : Type 0} → Option A → A → A
or_else none a = a
or_else (some b) a = b

-- The message is a text, or a map with a text under "Text".
abbrev pub message_of : Option Value → Text
message_of (some (Value.dict m)) = or_else (as_text (field_at (lit "Text") m)) []
message_of (some (Value.text s)) = s
message_of _ = []

-- A missing "Value" is nil.
unfoldable pub put_entry : Option Fields → Dict Value → Dict Value
put_entry none attributes = attributes
put_entry (some nvp) attributes = elim (as_text (field_at (lit "Name") nvp)) [
  | none ↦ attributes
  | some name ↦ insert name (or_else (field_at (lit "Value") nvp) Value.nil) attributes
]

unfoldable pub put_entries : Values → Dict Value → Dict Value
put_entries stop attributes = attributes
put_entries (item v vs) attributes = put_entries vs (put_entry (as_dict (some v)) attributes)

module _ (ua : NodeIdApi) where
  open ua use {NodeId, parse}

  -- The components of a "SourceNode" that is a text, not empty, and parses.
  unfoldable pub source_components : Option Text → ℕ × Text × Text
  source_components none = (0, [], [])
  source_components (some s) =
      if is_empty s
      then (0, [], [])
      else elim (parse s) [ none ↦ (0, [], []) | some n ↦ node_id_components ua (some n) ]

  -- `parseLogRecordFromMap`, whose error is always nil.
  unfoldable pub parse_log_record_from_map : Fields → OpcuaLogRecord
  unfolding source_components put_entries put_entry
  parse_log_record_from_map m =
      let (ns, id_type, id) = source_components (as_text (field_at (lit "SourceNode") m)) in
      let context = or_else (as_dict (field_at (lit "TraceContext") m)) done in
      let entries = or_else (as_slice (field_at (lit "AdditionalData") m)) stop in
      record {
        timestamp = or_else (as_time (field_at (lit "Time") m)) zero_time;
        severity = or_else (as_uint16 (field_at (lit "Severity") m)) 0;
        message = message_of (field_at (lit "Message") m);
        source_name = or_else (as_text (field_at (lit "SourceName") m)) [];
        source_namespace = ns;
        source_id_type = id_type;
        source_id = id;
        trace_id = or_else (as_text (field_at (lit "TraceId") context)) [];
        span_id = or_else (as_text (field_at (lit "SpanId") context)) [];
        trace_flags = or_else (as_byte (field_at (lit "TraceFlags") context)) 0;
        attributes = put_entries entries [];
      }

  -- `parseLogRecord`; `none` is its error.
  unfoldable pub parse_log_record : Value → Option OpcuaLogRecord
  parse_log_record (Value.dict m) = some (parse_log_record_from_map m)
  parse_log_record _ = none

  -- `parseLogRecordArray` skips what does not parse.
  unfoldable pub parse_log_record_array : Values → List OpcuaLogRecord
  parse_log_record_array stop = []
  parse_log_record_array (item v vs) =
      let rest = parse_log_record_array vs in
      elim (parse_log_record v) [ none ↦ rest | some r ↦ r ∷ rest ]

-- The `Value` of an extension object: a record that gopcua has decoded (`none` a nil pointer), the
-- body as it came, nil, or something else.
pub data Body (NodeId : Type 0) : Type 0 where
  decoded : Option (LogRecordExtObj NodeId) → Body NodeId
  raw : List ℕ → Body NodeId
  nil unknown : Body NodeId

-- What the variant of the call's first output holds.
pub data Payload (NodeId : Type 0) : Type 0 where
  values : Values → Payload NodeId
  objects : List (Option (Body NodeId)) → Payload NodeId
  nothing unexpected : Payload NodeId

module _ (ua : NodeIdApi) (bufs : BufferApi) where
  open ua use {NodeId}

  -- The record of a body that decodes with no error.
  unless_error :
      {Error : Type 0} → LogRecordExtObj NodeId × ℕ × Option Error → Option OpcuaLogRecord
  unless_error (l, pos, none) = some (log_record_ext_obj_to_record ua l)
  unless_error (l, pos, some error) = none

  -- `parseLogRecordFromExtensionObject`; `none` is its error.
  unfoldable pub parse_log_record_from_extension_object : Body NodeId → Option OpcuaLogRecord
  unfolding unless_error
  parse_log_record_from_extension_object (decoded none) = none
  parse_log_record_from_extension_object (decoded (some l)) =
      some (log_record_ext_obj_to_record ua l)
  parse_log_record_from_extension_object (raw bytes) =
      if is_nil bytes then none else unless_error (decode ua bufs (fresh NodeId) bytes)
  parse_log_record_from_extension_object nil = none
  parse_log_record_from_extension_object unknown = none

  -- `parseExtensionObjectArray` skips nil pointers and what does not parse.
  unfoldable pub parse_extension_object_array : List (Option (Body NodeId)) → List OpcuaLogRecord
  parse_extension_object_array [] = []
  parse_extension_object_array (none ∷ objs) = parse_extension_object_array objs
  parse_extension_object_array (some obj ∷ objs) =
      let rest = parse_extension_object_array objs in
      elim (parse_log_record_from_extension_object obj) [ none ↦ rest | some r ↦ r ∷ rest ]

  -- `parseLogRecordsDataType`, whose error is always nil; `none` is a nil variant.
  unfoldable pub parse_log_records_data_type : Option (Payload NodeId) → List OpcuaLogRecord
  parse_log_records_data_type none = []
  parse_log_records_data_type (some (values vs)) = parse_log_record_array ua vs
  parse_log_records_data_type (some (objects objs)) = parse_extension_object_array objs
  parse_log_records_data_type (some nothing) = []
  parse_log_records_data_type (some unexpected) = []
