-- ===== src/Records/Parse/Arrays.antt =====
-- The array parsers of receiver/opcua/get_records.go on bodies that `Encode` of
-- receiver/opcua/log_record_type.go wrote.
use opentelemetry_collector.Common.{◌≡◌, refl, ap, List, [], ◌∷◌, Option, some, All, map}
use opentelemetry_collector.LogRecord.Codec.{LogRecordExtObj, encode}
use opentelemetry_collector.LogRecord.Codec.RoundTrip.{
  IsWire, record_image, encode-not_nil, decode-encode,
}
use opentelemetry_collector.Records.{log_record_ext_obj_to_record}
use opentelemetry_collector.Records.Parse.{
  Body, raw, unless_error, parse_log_record_from_extension_object, parse_extension_object_array,
}
use opentelemetry_collector.Ua.Buffers.{BufferApi}
use opentelemetry_collector.Ua.NodeIds.{NodeIdApi}
use opentelemetry_collector.Value.{OpcuaLogRecord}

module _ (ua : NodeIdApi) (bufs : BufferApi) where
  open ua use {NodeId}

  pub parse_raw-encode :
      (l : LogRecordExtObj NodeId)
      → IsWire ua bufs l
      → parse_log_record_from_extension_object ua bufs (raw (encode ua bufs l).0)
        ≡ some (log_record_ext_obj_to_record ua (record_image ua bufs l))
  unfolding parse_log_record_from_extension_object unless_error
  parse_raw-encode l w = rw (encode-not_nil ua bufs l, decode-encode ua bufs l w)

  -- The body of a record, as a server sends it.
  abbrev pub sent : LogRecordExtObj NodeId → Option (Body NodeId)
  sent l = some (raw (encode ua bufs l).0)

  -- The record that the client makes of a record that a server sent.
  abbrev pub received : LogRecordExtObj NodeId → OpcuaLogRecord
  received l = log_record_ext_obj_to_record ua (record_image ua bufs l)

  -- If every record of a list fits the wire, the array of their encoded bodies parses to one
  -- record for each, in order, none skipped: the conversion of the record's image.
  pub parse_extension_object_array-sent :
      (ls : List (LogRecordExtObj NodeId))
      → All (IsWire ua bufs) ls
      → parse_extension_object_array ua bufs (map sent ls) ≡ map received ls
  unfolding parse_extension_object_array
  parse_extension_object_array-sent [] h = refl
  parse_extension_object_array-sent (l ∷ ls) (w, h) =
      rw (parse_raw-encode l w, parse_extension_object_array)
        (ap (λ (rs : List OpcuaLogRecord). received l ∷ rs)
          (parse_extension_object_array-sent ls h))
