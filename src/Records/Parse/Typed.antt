-- ===== src/Records/Parse/Typed.antt =====
-- The records that receiver/opcua/get_records.go makes of extension objects of any kind.
use opentelemetry_collector.Common.{
  ℕ, ◌≡◌, refl, ◌⊎◌, inl, inr, Bool-cases, Option-cases, List, [], ◌∷◌, none, some, Option, Dict,
  ◌==◌, All, Text, arith,
}
use opentelemetry_collector.LogRecord.Codec.{
  LogRecordExtObj, fresh, decode, trace_id_hex, span_id_hex,
}
use opentelemetry_collector.LogRecord.Codec.Typed.{
  IsEntry, IsStamp, IsTyped, All-insert, fresh-IsTyped, decode-IsTyped,
}
use opentelemetry_collector.LogRecord.Hex.{
  encode_hex, big_endian, hex_padded-big_endian, length-big_endian, AreBytes-big_endian,
}
use opentelemetry_collector.LogRecord.TraceId.Typed.{BytesOf}
use opentelemetry_collector.Records.{promote, node_id_components, log_record_ext_obj_to_record}
use opentelemetry_collector.Records.Parse.{
  Body, decoded, raw, nil, unknown, unless_error, parse_log_record_from_extension_object,
  parse_extension_object_array,
}
use opentelemetry_collector.Ua.Buffers.{BufferApi, TypedReads, IsByte, IsUint16}
use opentelemetry_collector.Ua.NodeIds.{NodeIdApi}
use opentelemetry_collector.Value.{OpcuaLogRecord, Value}

-- The identifier is so many bytes, printed in lower-case hexadecimal.
abbrev pub IsHexOf : ℕ → Text → Type 0
IsHexOf n t = (bs : List ℕ) × (t ≡ encode_hex bs) × BytesOf n bs

-- Both identifiers and the sampled flag, or none of them.
abbrev pub HasContext : OpcuaLogRecord → Type 0
HasContext o =
    (IsHexOf 16 o.trace_id × IsHexOf 8 o.span_id × (o.trace_flags ≡ 1))
    ⊎ ((o.trace_id ≡ []) × (o.span_id ≡ []) × (o.trace_flags ≡ 0))

-- The severity and the namespace fit their types, the time is one that `Decode` makes, every
-- attribute is a scalar, and the trace context is whole or not there.
pub record IsReceived (o : OpcuaLogRecord) : Type 0 where
  pub timestamp : IsStamp o.timestamp
  pub severity : IsUint16 o.severity
  pub source_namespace : IsUint16 o.source_namespace
  pub context : HasContext o
  pub attributes : All IsEntry o.attributes

All-promote :
    (m attributes : Dict Value)
    → All IsEntry m
    → All IsEntry attributes
    → All IsEntry (promote m attributes)
unfolding promote
All-promote [] attributes h h' = h'
All-promote ((k, v) ∷ m) attributes h h' = All-promote m _ h.1 (All-insert k v attributes h.0 h')

module _ (ua : NodeIdApi) where
  open ua use {NodeId}

  node_id_components-IsUint16 : (n : Option NodeId) → IsUint16 (node_id_components ua n).0
  unfolding node_id_components
  node_id_components-IsUint16 none = omega arith
  node_id_components-IsUint16 (some n) = ua.namespace_range n

  log_record_ext_obj_to_record-HasContext :
      (l : LogRecordExtObj NodeId) → IsTyped l → HasContext (log_record_ext_obj_to_record ua l)
  unfolding log_record_ext_obj_to_record trace_id_hex span_id_hex
  log_record_ext_obj_to_record-HasContext l t = elim (Bool-cases (l.span_id == 0)) [
    | inl e ↦ inr (rw e refl, rw e refl, rw e refl)
    | inr e ↦ inl (
      (l.trace_id_bytes, rw e refl, t.trace_id_bytes),
      (
        big_endian 8 l.span_id,
        rw e (hex_padded-big_endian 8 l.span_id),
        (length-big_endian 8 l.span_id, AreBytes-big_endian 8 l.span_id),
      ),
      rw e refl,
    )
  ]

  log_record_ext_obj_to_record-IsReceived :
      (l : LogRecordExtObj NodeId) → IsTyped l → IsReceived (log_record_ext_obj_to_record ua l)
  unfolding log_record_ext_obj_to_record
  log_record_ext_obj_to_record-IsReceived l t = record {
    timestamp = t.time;
    severity = t.severity;
    source_namespace = node_id_components-IsUint16 l.source_node;
    context = log_record_ext_obj_to_record-HasContext l t;
    attributes = All-promote l.additional_data [] t.additional_data tt;
  }

module _ (ua : NodeIdApi) (bufs : BufferApi) where
  open ua use {NodeId}

  -- A raw body is made of bytes, and a decoded one of fields of their Go types; the rest is free.
  abbrev pub TypedBody : Option (Body NodeId) → Type 0
  TypedBody (some (decoded (some l))) = IsTyped l
  TypedBody (some (raw bs)) = All IsByte bs
  TypedBody obj = Unit

  -- Of every record that there is.
  abbrev EachReceived : Option OpcuaLogRecord → Type 0
  EachReceived none = Unit
  EachReceived (some o) = IsReceived o

  unless_error-IsReceived :
      {Error : Type 0} (r : LogRecordExtObj NodeId × ℕ × Option Error)
      → IsTyped r.0
      → EachReceived (unless_error ua bufs r)
  unfolding unless_error
  unless_error-IsReceived (l, pos, none) t = log_record_ext_obj_to_record-IsReceived ua l t
  unless_error-IsReceived (l, pos, some e) t = tt

  parse-IsReceived :
      (obj : Body NodeId)
      → TypedReads bufs
      → TypedBody (some obj)
      → EachReceived (parse_log_record_from_extension_object ua bufs obj)
  unfolding parse_log_record_from_extension_object
  parse-IsReceived (decoded none) reads h = tt
  parse-IsReceived (decoded (some l)) reads h = log_record_ext_obj_to_record-IsReceived ua l h
  parse-IsReceived (raw []) reads h = tt
  parse-IsReceived (raw (b ∷ bs)) reads h =
      unless_error-IsReceived (decode ua bufs (fresh NodeId) (b ∷ bs))
        (decode-IsTyped ua bufs reads (fresh NodeId) (b ∷ bs) (fresh-IsTyped NodeId) h)
  parse-IsReceived nil reads h = tt
  parse-IsReceived unknown reads h = tt

  -- Whatever bytes the raw bodies of an array are made of, and where those that gopcua has decoded
  -- hold fields of their Go types, each record that comes of the array has a severity and a
  -- namespace of 16 bits, a time of 64 bits or the zero time, attributes that are nil, texts, or
  -- bools and numbers within the range of their type, and either a trace id of 16 bytes and a span
  -- id of 8 bytes, both in hexadecimal, and the flag 1, or neither of them and no flag.
  pub parse_extension_object_array-IsReceived :
      (objs : List (Option (Body NodeId)))
      → TypedReads bufs
      → All TypedBody objs
      → All IsReceived (parse_extension_object_array ua bufs objs)
  unfolding parse_extension_object_array
  parse_extension_object_array-IsReceived [] reads h = tt
  parse_extension_object_array-IsReceived (none ∷ objs) reads h =
      parse_extension_object_array-IsReceived objs reads h.1
  parse_extension_object_array-IsReceived (some obj ∷ objs) reads h =
      let rest = parse_extension_object_array-IsReceived objs reads h.1 in
      let first = parse-IsReceived obj reads h.0 in
      elim (Option-cases (parse_log_record_from_extension_object ua bufs obj)) [
        | inl e ↦ rw (e, parse_extension_object_array) rest
        | inr (r, e) ↦ rw (e, parse_extension_object_array) (rw e at first, rest)
      ]
