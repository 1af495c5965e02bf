-- ===== src/LogRecord/Codec/Typed.antt =====
-- `Decode` of receiver/opcua/log_record_type.go on bytes of any kind.
use opentelemetry_collector.Common.{
  ℕ, zero, suc, ◌≡◌, refl, ◌⊎◌, inl, inr, List, [], ◌∷◌, Bool, Bool-cases, Dict, insert, is_empty,
  text_eq, ◌&&◌, ltb, ◌^◌, ◌==◌, bit_and, not, Text, All, FitsInt64, arith,
}
use opentelemetry_collector.LogRecord.Clock.{decode_time}
use opentelemetry_collector.LogRecord.Codec.{
  LogRecordExtObj, fresh, store, read_string_if, read_pairs, read_additional_data, decode_fields,
  decode,
}
use opentelemetry_collector.LogRecord.Nodes.Typed.{Yields-read_node_id}
use opentelemetry_collector.LogRecord.TraceId.Typed.{BytesOf, Yields-read_trace_id}
use opentelemetry_collector.LogRecord.Variants.Typed.{IsScalar, Yields-read_variant_value}
use opentelemetry_collector.LogRecord.Wire.Typed.{Yields-return, Yields-bind, Yields-if}
use opentelemetry_collector.Ua.Buffers.{BufferApi, Yields, TypedReads, IsByte, IsUint16, Is64}
use opentelemetry_collector.Ua.NodeIds.{NodeIdApi}
use opentelemetry_collector.Value.{Value, Time, zero_time}

-- A name of bytes, and a scalar.
abbrev pub IsEntry : Text × Value → Type 0
IsEntry e = All IsByte e.0 × IsScalar e.1

pub All-insert :
    (k : Text) (v : Value) (m : Dict Value)
    → IsEntry (k, v)
    → All IsEntry m
    → All IsEntry (insert k v m)
unfolding insert
All-insert k v [] h hs = (h, tt)
All-insert k v ((j, w) ∷ m) h hs = elim (Bool-cases (text_eq j k)) [
  | inl e ↦ rw e (h, hs.1)
  | inr e ↦ rw e (hs.0, All-insert k v m h hs.1)
]

All-store :
    (k : Text) (v : Value) (m : Dict Value)
    → IsEntry (k, v)
    → All IsEntry m
    → All IsEntry (store k v m)
All-store k v m h hs = elim (Bool-cases (is_empty k)) [
  | inl e ↦ rw e hs
  | inr e ↦ rw e (All-insert k v m h hs)
]

-- Nanoseconds that an int64 holds, or the zero time.
abbrev pub IsStamp : Time → Type 0
IsStamp t = FitsInt64 t ⊎ (t ≡ zero_time)

IsStamp-decode_time : (ticks : ℕ) (old : Time) → IsStamp old → IsStamp (decode_time ticks old)
unfolding decode_time
IsStamp-decode_time ticks old h = elim (Bool-cases (ltb 0 ticks && ltb ticks (2 ^ 63))) [
  | inl e ↦ rw e (inl (ground arith))
  | inr e ↦ rw e h
]

-- Every field is in the range of its Go type, the times and the values are of those that `Decode`
-- makes.
pub record IsTyped {NodeId : Type 0} (l : LogRecordExtObj NodeId) : Type 0 where
  pub time : IsStamp l.time
  pub severity : IsUint16 l.severity
  pub message : All IsByte l.message
  pub source_name : All IsByte l.source_name
  pub trace_id_bytes : BytesOf 16 l.trace_id_bytes
  pub span_id : Is64 l.span_id
  pub parent_span_id : Is64 l.parent_span_id
  pub parent_identifier : All IsByte l.parent_identifier
  pub additional_data : All IsEntry l.additional_data

pub fresh-IsTyped : (NodeId : Type 0) → IsTyped (fresh NodeId)
unfolding fresh
fresh-IsTyped NodeId = record {
  time = inr refl;
  severity = omega arith;
  message = tt;
  source_name = tt;
  trace_id_bytes = omega arith;
  span_id = omega arith;
  parent_span_id = omega arith;
  parent_identifier = tt;
  additional_data = tt;
}

module _ (ua : NodeIdApi) (bufs : BufferApi) (reads : TypedReads bufs) where
  open ua use {NodeId}
  open bufs use {new_buffer, unread}

  Yields-read_string_if :
      (present : Bool) (old : Text)
      → All IsByte old
      → Yields bufs (All IsByte) (read_string_if ua bufs present old)
  unfolding read_string_if
  Yields-read_string_if present old h =
      Yields-if bufs present reads.typed_string (Yields-return bufs old h)

  Yields-read_pairs :
      (left : ℕ) (m : Dict Value)
      → All IsEntry m
      → Yields bufs (All IsEntry) (read_pairs ua bufs left m)
  unfolding read_pairs
  Yields-read_pairs zero m h = Yields-return bufs m h
  Yields-read_pairs (suc left) m h = Yields-bind bufs reads.typed_string (λ name hn.
      Yields-bind bufs (Yields-read_variant_value bufs reads) (λ value hv.
        Yields-read_pairs left (store name value m) (All-store name value m (hn, hv) h)))

  Yields-read_additional_data :
      (count : ℕ) (old : Dict Value)
      → All IsEntry old
      → Yields bufs (All IsEntry) (read_additional_data ua bufs count old)
  unfolding read_additional_data
  Yields-read_additional_data count old h =
      Yields-if bufs (ltb 0 count && ltb count (2 ^ 31)) (Yields-read_pairs count [] tt)
        (Yields-return bufs old h)

  Yields-decode_fields :
      (l : LogRecordExtObj NodeId) → IsTyped l → Yields bufs IsTyped (decode_fields ua bufs l)
  unfolding decode_fields
  Yields-decode_fields l t = Yields-bind bufs reads.typed_int64 (λ ticks h1.
      Yields-bind bufs reads.typed_uint16 (λ severity h2.
        Yields-bind bufs (Yields-read_node_id ua bufs reads) (λ event_type h3.
          Yields-bind bufs (Yields-read_node_id ua bufs reads) (λ source h4.
            Yields-bind bufs reads.typed_string (λ source_name h5.
              Yields-bind bufs reads.typed_byte (λ mask h6.
                Yields-bind bufs (Yields-read_string_if (not (bit_and mask 0x01 == 0)) [] tt)
                  (λ locale h7.
                    Yields-bind bufs
                      (Yields-read_string_if (not (bit_and mask 0x02 == 0)) l.message t.message)
                      (λ message h8.
                        Yields-bind bufs (Yields-read_trace_id bufs reads) (λ trace_id h9.
                          Yields-bind bufs reads.typed_int64 (λ span_id h10.
                            Yields-bind bufs reads.typed_int64 (λ parent_span_id h11.
                              Yields-bind bufs reads.typed_string (λ parent_identifier h12.
                                Yields-bind bufs reads.typed_uint32 (λ count h13.
                                  Yields-bind bufs
                                    (Yields-read_additional_data count l.additional_data
                                      t.additional_data)
                                    (λ entries h14. Yields-return bufs _ (record {
                                      time = IsStamp-decode_time ticks l.time t.time;
                                      severity = h2;
                                      message = h8;
                                      source_name = h5;
                                      trace_id_bytes = h9;
                                      span_id = h10;
                                      parent_span_id = h11;
                                      parent_identifier = h12;
                                      additional_data = h14;
                                    })))))))))))))))

  -- Whatever the bytes are, and also where `Decode` fails, the object that it leaves is typed if it
  -- was before.
  pub decode-IsTyped :
      (l : LogRecordExtObj NodeId) (bs : List ℕ)
      → IsTyped l
      → All IsByte bs
      → IsTyped (decode ua bufs l bs).0
  unfolding decode
  decode-IsTyped l bs t h =
      ((Yields-decode_fields l t).run (new_buffer bs) (rw bufs.unread-new_buffer h)).0
