-- ===== src/LogRecord/Codec/RoundTrip/Truncated.antt =====
-- `Decode` of receiver/opcua/log_record_type.go on a body that has been cut short.
use opentelemetry_collector.Common.{
  ℕ, zero, suc, ◌≡◌, ◌≢◌, sym, ap, ◌∙◌, inl, inr, List, [], ◌∷◌, ◌++◌, none, Bool, Dict, ◌&&◌, ltb,
  ◌^◌, ◌==◌, bit_and, not, Text,
}
use mathlib.Core.List.{append-nil}
use opentelemetry_collector.LogRecord.Codec.{
  LogRecordExtObj, fresh, store, read_string_if, read_pairs, read_additional_data, decode_fields,
  decode, encode,
}
use opentelemetry_collector.LogRecord.Codec.RoundTrip.{
  IsWire, record_bytes, Reads-decode_fields, decode_steps, encode-record_bytes,
}
use opentelemetry_collector.LogRecord.Nodes.Local.{Local-read_node_id}
use opentelemetry_collector.LogRecord.TraceId.Local.{Local-read_trace_id}
use opentelemetry_collector.LogRecord.Variants.Local.{Local-read_variant_value}
use opentelemetry_collector.LogRecord.Wire.Local.{Local-return, Local-bind, Local-if}
use opentelemetry_collector.Ua.Buffers.{BufferApi, Local, LocalReads}
use opentelemetry_collector.Ua.NodeIds.{NodeIdApi}
use opentelemetry_collector.Value.{Value}

rest_nil : (left rest : List ℕ) → left ++ rest ≡ [] → rest ≡ []
rest_nil [] rest e = e
rest_nil (x ∷ left) rest e = cc

module _ (ua : NodeIdApi) (bufs : BufferApi) (reads : LocalReads bufs) where
  open ua use {NodeId}
  open bufs use {new_buffer, unread, error}

  Local-read_string_if :
      (present : Bool) (old : Text) → Local bufs (read_string_if ua bufs present old)
  unfolding read_string_if
  Local-read_string_if present old = Local-if bufs present reads.local_string (Local-return bufs _)

  Local-read_pairs : (left : ℕ) (m : Dict Value) → Local bufs (read_pairs ua bufs left m)
  unfolding read_pairs
  Local-read_pairs zero m = Local-return bufs m
  Local-read_pairs (suc left) m = Local-bind bufs reads.local_string (λ name.
      Local-bind bufs (Local-read_variant_value bufs reads)
        (λ value. Local-read_pairs left (store name value m)))

  Local-read_additional_data :
      (count : ℕ) (old : Dict Value) → Local bufs (read_additional_data ua bufs count old)
  unfolding read_additional_data
  Local-read_additional_data count old =
      Local-if bufs (ltb 0 count && ltb count (2 ^ 31)) (Local-read_pairs count [])
        (Local-return bufs old)

  Local-decode_fields : (l : LogRecordExtObj NodeId) → Local bufs (decode_fields ua bufs l)
  unfolding decode_fields
  Local-decode_fields l = Local-bind bufs reads.local_int64 (λ ticks.
      Local-bind bufs reads.local_uint16 (λ severity.
        Local-bind bufs (Local-read_node_id ua bufs reads) (λ event_type.
          Local-bind bufs (Local-read_node_id ua bufs reads) (λ source.
            Local-bind bufs reads.local_string (λ source_name.
              Local-bind bufs reads.local_byte (λ mask.
                Local-bind bufs (Local-read_string_if (not (bit_and mask 0x01 == 0)) []) (λ locale.
                  Local-bind bufs (Local-read_string_if (not (bit_and mask 0x02 == 0)) l.message)
                    (λ message. Local-bind bufs (Local-read_trace_id bufs reads) (λ trace_id.
                      Local-bind bufs reads.local_int64 (λ span_id.
                        Local-bind bufs reads.local_int64 (λ parent_span_id.
                          Local-bind bufs reads.local_string (λ parent_identifier.
                            Local-bind bufs reads.local_uint32 (λ count.
                              Local-bind bufs (Local-read_additional_data count l.additional_data)
                                (λ entries. Local-return bufs _))))))))))))))

  -- `decode` of a proper prefix of what `encode` made of a record that fits the wire reports an
  -- error, where the buffer's reads fail when the bytes run out.
  pub decode-truncated :
      (l : LogRecordExtObj NodeId) (part rest : List ℕ)
      → IsWire ua bufs l
      → part ++ rest ≡ (encode ua bufs l).0
      → rest ≢ []
      → (decode ua bufs (fresh NodeId) part).2 ≢ none
  decode-truncated l part rest w e more =
      let whole = e ∙ encode-record_bytes ua bufs l in
      let (got, all_read, ok, at) =
        (Reads-decode_fields ua bufs l w).run (new_buffer (part ++ rest)) []
          (bufs.error-new_buffer _)
          (bufs.unread-new_buffer _ ∙ whole ∙ sym (append-nil (record_bytes ua bufs l))) in
      rw (decode_steps ua bufs (fresh NodeId) part)
        (elim ((Local-decode_fields (fresh NodeId)).local (new_buffer part)
          (new_buffer (part ++ rest)) rest (bufs.error-new_buffer _) (bufs.error-new_buffer _)
          (bufs.unread-new_buffer _
            ∙ ap (λ (l : List ℕ). l ++ rest) (sym (bufs.unread-new_buffer part)))) [
              | inl short ↦ short
              | inr (same, ok1, ok2, left) ↦ absurd (more (rest_nil _ rest (sym left ∙ all_read)))
            ])
