-- ===== src/Transformer/Trace.antt =====
-- The trace context, from the extension object that receiver/opcua/log_record_type.go decodes to
-- the log record that receiver/opcua/transformer.go fills.
use opentelemetry_collector.Common.{
  ℕ, ◌+◌, ◌≡◌, ◌≢◌, refl, true, false, not, ◌&&◌, List, [], ◌∷◌, some, length, bit_and, ◌==◌,
  if◌then◌else◌, Text, is_empty, arith,
}
use opentelemetry_collector.LogRecord.Codec.{LogRecordExtObj, trace_id_hex, span_id_hex}
use opentelemetry_collector.LogRecord.Hex.{
  AreBytes, encode_hex, decode_hex, big_endian, decode_hex-encode_hex, hex_padded-big_endian,
  length-big_endian, AreBytes-big_endian,
}
use opentelemetry_collector.Pdata.{PdataApi, View}
use opentelemetry_collector.Records.{log_record_ext_obj_to_record}
use opentelemetry_collector.Severity.{map_severity, severity_to_text}
use opentelemetry_collector.Transformer.{
  StdApi, put_source, put_attributes, set_id, set_trace_context, transform_log_record,
}
use opentelemetry_collector.Ua.NodeIds.{NodeIdApi}
use opentelemetry_collector.Value.{OpcuaLogRecord, Time}

pub not_empty-encode_hex :
    (bs : List ℕ) (n : ℕ) → length bs ≡ n + 1 → is_empty (encode_hex bs) ≡ false
unfolding encode_hex
not_empty-encode_hex [] n h = ground arith
not_empty-encode_hex (b ∷ bs) n h = refl

module _ (pdata : PdataApi) (std : StdApi) where
  open pdata use {
    Map, Timestamp, Flags, LogRecord, view, new_timestamp, new_log_record, default_flags,
    with_is_sampled, is_sampled,
  }

  -- What the record holds before the trace context is set.
  unfoldable pub plain_view : Time → OpcuaLogRecord → LogRecord → View Map Timestamp Flags
  plain_view now o r = record (view r) {
    timestamp = new_timestamp o.timestamp;
    observed_timestamp = new_timestamp now;
    severity_number = map_severity o.severity;
    severity_text = severity_to_text o.severity;
    body = o.message;
    attributes =
        put_attributes pdata std (put_source pdata std (View.attributes (view r)) o) o.attributes;
  }

  pub view-untraced :
      (now : Time) (o : OpcuaLogRecord) (r : LogRecord)
      → (not (is_empty o.trace_id) && not (is_empty o.span_id)) ≡ false
      → view (transform_log_record pdata std now o r) ≡ plain_view now o r
  unfolding transform_log_record plain_view
  view-untraced now o r h = rw (
    h, pdata.view-attributes, pdata.view-body, pdata.view-severity_text, pdata.view-severity_number,
    pdata.view-observed_timestamp, pdata.view-timestamp,
  )

  view-set_trace_context :
      (r : LogRecord) (t s : Text) (flags : ℕ) (tb sb : List ℕ)
      → decode_hex t ≡ some tb
      → length tb ≡ 16
      → decode_hex s ≡ some sb
      → length sb ≡ 8
      → view (set_trace_context pdata std r t s flags) ≡ record (view r) {
        trace_id = tb;
        span_id = sb;
        flags =
            if not (bit_and flags 0x01 == 0)
            then with_is_sampled default_flags true
            else default_flags;
      }
  unfolding set_trace_context set_id
  view-set_trace_context r t s flags tb sb ht lt hs ls =
      rw (
        ht, hs, lt, ls, set_trace_context, pdata.view-flags, pdata.view-span_id,
        pdata.view-trace_id,
      )

  pub view-traced :
      (now : Time) (o : OpcuaLogRecord) (r : LogRecord) (tb sb : List ℕ)
      → (not (is_empty o.trace_id) && not (is_empty o.span_id)) ≡ true
      → decode_hex o.trace_id ≡ some tb
      → length tb ≡ 16
      → decode_hex o.span_id ≡ some sb
      → length sb ≡ 8
      → view (transform_log_record pdata std now o r) ≡ record (plain_view now o r) {
        trace_id = tb;
        span_id = sb;
        flags =
            if not (bit_and o.trace_flags 0x01 == 0)
            then with_is_sampled default_flags true
            else default_flags;
      }
  unfolding transform_log_record plain_view
  view-traced now o r tb sb h ht lt hs ls = rw (
    h,
    view-set_trace_context _ _ _ _ tb sb ht lt hs ls,
    pdata.view-attributes,
    pdata.view-body,
    pdata.view-severity_text,
    pdata.view-severity_number,
    pdata.view-observed_timestamp,
    pdata.view-timestamp,
  )

module _ (ua : NodeIdApi) (pdata : PdataApi) (std : StdApi) where
  open ua use {NodeId}
  open pdata use {LogRecord, view, is_sampled}

  -- What a record's trace context becomes.
  abbrev pub Traced : LogRecordExtObj NodeId → LogRecord → Type 0
  Traced l r =
      (View.trace_id (view r) ≡ l.trace_id_bytes)
      × (View.span_id (view r) ≡ big_endian 8 l.span_id)
      × (is_sampled (View.flags (view r)) ≡ true)

  traced_hex :
      (l : LogRecordExtObj NodeId)
      → l.span_id ≢ 0
      → ((log_record_ext_obj_to_record ua l).trace_id ≡ encode_hex l.trace_id_bytes)
        × ((log_record_ext_obj_to_record ua l).span_id ≡ encode_hex (big_endian 8 l.span_id))
        × ((log_record_ext_obj_to_record ua l).trace_flags ≡ 1)
  unfolding log_record_ext_obj_to_record trace_id_hex span_id_hex
  traced_hex l h =
      let shown : (l.span_id == 0) ≡ false = ground arith in
      (rw shown, rw (shown, hex_padded-big_endian 8 l.span_id), rw shown)

  untraced_id :
      (l : LogRecordExtObj NodeId)
      → l.span_id ≡ 0
      → (log_record_ext_obj_to_record ua l).trace_id ≡ []
  unfolding log_record_ext_obj_to_record
  untraced_id l h = let shown : (l.span_id == 0) ≡ true = ground arith in rw shown

  -- A record that has a span id, and 16 bytes of trace id, becomes a log record with exactly those
  -- trace id bytes, the span id as 8 bytes with the highest first, and the sampled flag.
  pub transform_log_record-Traced :
      (now : Time) (l : LogRecordExtObj NodeId) (r : LogRecord)
      → l.span_id ≢ 0
      → length l.trace_id_bytes ≡ 16
      → AreBytes l.trace_id_bytes
      → Traced l (transform_log_record pdata std now (log_record_ext_obj_to_record ua l) r)
  transform_log_record-Traced now l r h w b =
      let (t, s, f) = traced_hex l h in
      let seen =
        view-traced pdata std now (log_record_ext_obj_to_record ua l) r l.trace_id_bytes
          (big_endian 8 l.span_id)
          (rw
            (
              t,
              s,
              not_empty-encode_hex l.trace_id_bytes 15 w,
              not_empty-encode_hex (big_endian 8 l.span_id) 7 (length-big_endian 8 l.span_id),
            )
            refl)
          (rw t (decode_hex-encode_hex _ b)) w
          (rw s (decode_hex-encode_hex _ (AreBytes-big_endian 8 l.span_id)))
          (length-big_endian 8 l.span_id) in
      (rw seen, rw seen, rw (seen, f) (pdata.is_sampled-with _ true))

  -- A record with the span id 0 leaves the log record's trace id, span id and flags as they were.
  transform_log_record-untraced :
      (now : Time) (l : LogRecordExtObj NodeId) (r : LogRecord)
      → l.span_id ≡ 0
      → let v = view (transform_log_record pdata std now (log_record_ext_obj_to_record ua l) r) in
        (View.trace_id v ≡ View.trace_id (view r))
        × (View.span_id v ≡ View.span_id (view r))
        × (View.flags v ≡ View.flags (view r))
  unfolding plain_view
  transform_log_record-untraced now l r h =
      let seen =
        view-untraced pdata std now (log_record_ext_obj_to_record ua l) r
          (rw (untraced_id l h) refl) in
      (rw seen, rw seen, rw seen)
