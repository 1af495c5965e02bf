-- ===== src/LogRecord/Codec/RoundTrip.antt =====
-- `Decode` of receiver/opcua/log_record_type.go reads back what `Encode` wrote.
pub mod Truncated
use opentelemetry_collector.Common.{
  ℕ, suc, ◌%◌, ◌^◌, ◌<◌, ◌≡◌, refl, sym, ap, ◌∙◌, List, [], ◌∷◌, ◌++◌, Option, none, some, length,
  All, Dict, FitsInt64, lt→ltb, is_nil, false, arith,
}
use mathlib.Core.List.{append-nil}
use mathlib.Core.Path.{subst}
use opentelemetry_collector.Value.{Value, zero_time}
use opentelemetry_collector.Ua.NodeIds.{NodeIdApi}
use opentelemetry_collector.Ua.Buffers.{BufferApi, IsUint16, Is64, IsWireText}
use opentelemetry_collector.LogRecord.Clock.{
  encode_ticks, whole_ticks, decode_time-encode_ticks, encode_ticks_range,
}
use opentelemetry_collector.LogRecord.Codec.Entries.{EntryFits, stored}
use opentelemetry_collector.LogRecord.Codec.{
  LogRecordExtObj, fresh, store, read_string_if, read_pairs, read_additional_data, decode_fields,
  decode, write_pairs, encode_fields, encode,
}
use opentelemetry_collector.LogRecord.Hex.{AreBytes}
use opentelemetry_collector.LogRecord.Nodes.{NodeFits, node_bytes, node_image}
use opentelemetry_collector.LogRecord.Nodes.Laws.{Writes-write_node_id, Reads-read_node_id}
use opentelemetry_collector.LogRecord.TraceId.{
  trace_id_encoding, Writes-write_trace_id, Reads-read_trace_id,
}
use opentelemetry_collector.LogRecord.Variants.{variant_bytes, variant_image}
use opentelemetry_collector.LogRecord.Variants.Laws.{
  Writes-write_variant_value, Reads-read_variant_value,
}
use opentelemetry_collector.LogRecord.Wire.{
  Reads, Writes, Reads-return, Reads-map, Reads-bind, Writes-return, Writes-then, Reads-byte,
  Reads-uint16, Reads-uint32, Reads-int64, Reads-string, Writes-byte, Writes-uint16, Writes-uint32,
  Writes-int64, Writes-string,
}

is_nil-append : (a b : List ℕ) → is_nil b ≡ false → is_nil (a ++ b) ≡ false
is_nil-append [] b h = h
is_nil-append (x ∷ a) b h = refl

module _ (ua : NodeIdApi) (bufs : BufferApi) where
  open ua use {NodeId, string_id}
  open bufs use {
    Buffer, Error, new_buffer, bytes, uint16_bytes, uint32_bytes, int64_bytes, string_bytes,
  }

  -- Every field of the record is in the range of its type, the time is within the years that
  -- nanoseconds in an int64 reach, and each text and the list of entries fit a 32-bit length.
  pub record IsWire (l : LogRecordExtObj NodeId) : Type 0 where
    pub time : FitsInt64 l.time
    pub severity : IsUint16 l.severity
    pub event_type_node : NodeFits ua l.event_type_node
    pub source_node : NodeFits ua l.source_node
    pub source_name : IsWireText l.source_name
    pub message : IsWireText l.message
    pub trace_id_length : length l.trace_id_bytes ≡ 16
    pub trace_id_bytes : AreBytes l.trace_id_bytes
    pub span_id : Is64 l.span_id
    pub parent_span_id : Is64 l.parent_span_id
    pub parent_identifier : IsWireText l.parent_identifier
    pub additional_data : All EntryFits l.additional_data
    pub entries : length l.additional_data < 2 ^ 31

  -- The record that is read back for a record written.
  unfoldable pub record_image : LogRecordExtObj NodeId → LogRecordExtObj NodeId
  record_image l = record l {
    time = whole_ticks l.time;
    event_type_node = some (node_image ua bufs l.event_type_node);
    source_node = some (node_image ua bufs l.source_node);
    additional_data = stored l.additional_data [];
  }

  pairs_bytes : Dict Value → List ℕ
  pairs_bytes [] = []
  pairs_bytes ((name, value) ∷ m) = string_bytes name ++ (variant_bytes bufs value ++ pairs_bytes m)

  record_bytes : LogRecordExtObj NodeId → List ℕ
  record_bytes l =
      int64_bytes (encode_ticks l.time)
      ++ (uint16_bytes l.severity
          ++ (node_bytes ua bufs l.event_type_node
              ++ (node_bytes ua bufs l.source_node
                  ++ (string_bytes l.source_name
                      ++ ((0x02 ∷ [])
                          ++ (string_bytes l.message
                              ++ (trace_id_encoding bufs l.trace_id_bytes
                                  ++ (int64_bytes l.span_id
                                      ++ (int64_bytes l.parent_span_id
                                          ++ (string_bytes l.parent_identifier
                                              ++ (uint32_bytes (length l.additional_data % 2 ^ 32)
                                                  ++ pairs_bytes l.additional_data)))))))))))

  Writes-write_pairs : (m : Dict Value) → Writes bufs (write_pairs ua bufs m) (pairs_bytes m)
  unfolding write_pairs pairs_bytes
  Writes-write_pairs [] = Writes-return bufs tt
  Writes-write_pairs ((name, value) ∷ m) =
      Writes-then bufs (Writes-string bufs name)
        (Writes-then bufs (Writes-write_variant_value bufs value) (Writes-write_pairs m))

  Writes-encode_fields :
      (l : LogRecordExtObj NodeId) → Writes bufs (encode_fields ua bufs l) (record_bytes l)
  unfolding encode_fields record_bytes
  Writes-encode_fields l = Writes-then bufs (Writes-int64 bufs _) (
      Writes-then bufs (Writes-uint16 bufs _) (
        Writes-then bufs (Writes-write_node_id ua bufs _) (
          Writes-then bufs (Writes-write_node_id ua bufs _) (
            Writes-then bufs (Writes-string bufs _) (
              Writes-then bufs (Writes-byte bufs _) (
                Writes-then bufs (Writes-string bufs _) (
                  Writes-then bufs (Writes-write_trace_id bufs _) (
                    Writes-then bufs (Writes-int64 bufs _) (
                      Writes-then bufs (Writes-int64 bufs _) (
                        Writes-then bufs (Writes-string bufs _) (
                          Writes-then bufs (Writes-uint32 bufs _)
                            (Writes-write_pairs l.additional_data))))))))))))

  Reads-read_pairs :
      (m acc : Dict Value)
      → All EntryFits m
      → Reads bufs (read_pairs ua bufs (length m) acc) (pairs_bytes m) (stored m acc)
  unfolding read_pairs pairs_bytes stored
  Reads-read_pairs [] acc h = Reads-return bufs acc
  Reads-read_pairs ((name, value) ∷ m) acc ((hn, hv), h) =
      Reads-bind bufs _ (Reads-string bufs name hn) (
        Reads-bind bufs _ (Reads-read_variant_value bufs value hv)
          (Reads-read_pairs m (store name (variant_image value) acc) h))

  Reads-read_additional_data :
      (m : Dict Value)
      → All EntryFits m
      → length m < 2 ^ 31
      → Reads bufs
          (read_additional_data ua bufs (length m % 2 ^ 32) [])
          (pairs_bytes m)
          (stored m [])
  unfolding read_additional_data
  Reads-read_additional_data [] h k =
      unfold read_additional_data pairs_bytes stored in Reads-return bufs []
  Reads-read_additional_data (e ∷ m) h k =
      let whole : suc (length m) % 2 ^ 32 ≡ suc (length m) = omega arith in
      rw (whole, lt→ltb (suc (length m)) (2 ^ 31) k, lt→ltb 0 (suc (length m)) (omega arith))
        (Reads-read_pairs (e ∷ m) [] h)

  Reads-decode_fields :
      (l : LogRecordExtObj NodeId)
      → IsWire l
      → Reads bufs (decode_fields ua bufs (fresh NodeId)) (record_bytes l) (record_image l)
  unfolding decode_fields record_bytes record_image fresh read_string_if
  Reads-decode_fields l w =
      subst
        (λ t.
          Reads bufs (decode_fields ua bufs (fresh NodeId)) (record_bytes l)
            (record (record_image l) { time = t }))
        (decode_time-encode_ticks l.time zero_time w.time)
        (Reads-bind bufs _ (Reads-int64 bufs _ (omega (arith, encode_ticks_range l.time w.time))) (
          Reads-bind bufs _ (Reads-uint16 bufs _ w.severity) (
            Reads-bind bufs _ (Reads-read_node_id ua bufs _ w.event_type_node) (
              Reads-bind bufs _ (Reads-read_node_id ua bufs _ w.source_node) (
                Reads-bind bufs _ (Reads-string bufs _ w.source_name) (
                  Reads-bind bufs _ (Reads-byte bufs 0x02 (omega arith)) (
                    Reads-bind bufs _ (Reads-return bufs []) (
                      Reads-bind bufs _ (Reads-string bufs _ w.message) (
                        Reads-bind bufs _
                          (Reads-read_trace_id bufs _ w.trace_id_length w.trace_id_bytes)
                          (Reads-bind bufs _ (Reads-int64 bufs _ w.span_id) (
                            Reads-bind bufs _ (Reads-int64 bufs _ w.parent_span_id) (
                              Reads-bind bufs _ (Reads-string bufs _ w.parent_identifier) (
                                Reads-bind bufs _ (Reads-uint32 bufs _ (omega arith)) (
                                  Reads-map bufs _ (
                                    Reads-read_additional_data _ w.additional_data
                                      w.entries)))))))))))))))

  decode_steps :
      (l : LogRecordExtObj NodeId) (b : List ℕ)
      → decode ua bufs l b ≡ (
        (decode_fields ua bufs l (new_buffer b)).0,
        bufs.pos (decode_fields ua bufs l (new_buffer b)).1,
        bufs.error (decode_fields ua bufs l (new_buffer b)).1,
      )
  unfolding decode
  decode_steps l b = refl

  encode_steps :
      (l : LogRecordExtObj NodeId)
      → (encode ua bufs l).0 ≡ bytes (encode_fields ua bufs l (new_buffer [])).1
  unfolding encode
  encode_steps l = refl

  encode-record_bytes : (l : LogRecordExtObj NodeId) → (encode ua bufs l).0 ≡ record_bytes l
  encode-record_bytes l =
      encode_steps l ∙ (Writes-encode_fields l).run (new_buffer []) ∙ rw bufs.bytes-new_buffer

  pub encode-not_nil : (l : LogRecordExtObj NodeId) → is_nil (encode ua bufs l).0 ≡ false
  unfolding record_bytes
  encode-not_nil l = rw (encode-record_bytes l) (search is_nil-append)

  -- For every record that fits the wire, `decode` on a fresh object, given the bytes of `encode`,
  -- returns the image of the record, the position behind the last byte, and no error. The image
  -- has the time rounded towards 1970 to 100 ns, each node as `node_image`, the additional data as
  -- `stored`, and every other field as it was.
  pub decode-encode :
      (l : LogRecordExtObj NodeId)
      → IsWire l
      → decode ua bufs (fresh NodeId) (encode ua bufs l).0
        ≡ (record_image l, length (encode ua bufs l).0, none)
  decode-encode l w =
      let (got, left, ok, at) =
        (Reads-decode_fields l w).run (new_buffer (record_bytes l)) [] (bufs.error-new_buffer _)
          (bufs.unread-new_buffer _ ∙ sym (append-nil (record_bytes l))) in
      rw (encode-record_bytes l) (
        decode_steps (fresh NodeId) (record_bytes l)
        ∙ (rw (got, ok, at, bufs.pos-new_buffer (record_bytes l)) (ap result (omega arith))))
    where
      result : ℕ → LogRecordExtObj NodeId × ℕ × Option Error
      result n = (record_image l, n, none)
