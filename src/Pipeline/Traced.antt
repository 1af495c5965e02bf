-- ===== src/Pipeline/Traced.antt =====
-- The trace context on its way from an extension object of any kind: the parsers of
-- receiver/opcua/get_records.go and `transformLogRecord` of transformer.go together.
use opentelemetry_collector.Common.{◌≡◌, refl, ◌⊎◌, inl, inr, true, List, [], ◌∷◌, Option, All}
use opentelemetry_collector.LogRecord.Hex.{decode_hex-encode_hex}
use opentelemetry_collector.LogRecord.TraceId.Typed.{BytesOf}
use opentelemetry_collector.Pdata.{PdataApi, View}
use opentelemetry_collector.Records.Parse.{Body, parse_extension_object_array}
use opentelemetry_collector.Records.Parse.Typed.{
  HasContext, IsReceived, TypedBody, parse_extension_object_array-IsReceived,
}
use opentelemetry_collector.Transformer.{StdApi, transform_log_record}
use opentelemetry_collector.Transformer.Trace.{
  plain_view, view-traced, view-untraced, not_empty-encode_hex,
}
use opentelemetry_collector.Ua.Buffers.{BufferApi, TypedReads}
use opentelemetry_collector.Ua.NodeIds.{NodeIdApi}
use opentelemetry_collector.Value.{OpcuaLogRecord, Time}

All-map :
    {A : Type 0} (P Q : A → Type 0) (xs : List A) → ((x : A) → P x → Q x) → All P xs → All Q xs
All-map P Q [] f h = tt
All-map P Q (x ∷ xs) f h = (f x h.0, All-map P Q xs f h.1)

module _ (pdata : PdataApi) (std : StdApi) where
  open pdata use {LogRecord, view, is_sampled}

  -- The log record has a trace id of 16 bytes, a span id of 8, and the sampled flag, or its trace
  -- context is that of another.
  abbrev pub HasIds : LogRecord → LogRecord → Type 0
  HasIds other r =
      (BytesOf 16 (View.trace_id (view r))
        × BytesOf 8 (View.span_id (view r))
        × (is_sampled (View.flags (view r)) ≡ true))
      ⊎ ((View.trace_id (view r) ≡ View.trace_id (view other))
          × (View.span_id (view r) ≡ View.span_id (view other))
          × (View.flags (view r) ≡ View.flags (view other)))

  transform_log_record-HasIds :
      (now : Time) (o : OpcuaLogRecord) (r : LogRecord)
      → HasContext o
      → HasIds r (transform_log_record pdata std now o r)
  unfolding plain_view
  transform_log_record-HasIds now o r (inl ((tb, t, tl), (sb, s, sl), f)) =
      let seen =
        view-traced pdata std now o r tb sb
          (rw (t, s, not_empty-encode_hex tb 15 tl.0, not_empty-encode_hex sb 7 sl.0) refl)
          (rw t (decode_hex-encode_hex tb tl.1)) tl.0 (rw s (decode_hex-encode_hex sb sl.1)) sl.0 in
      inl (rw seen tl, rw seen sl, rw (seen, f) (pdata.is_sampled-with _ true))
  transform_log_record-HasIds now o r (inr (t, s, f)) =
      let seen = view-untraced pdata std now o r (rw t refl) in inr (rw seen, rw seen, rw seen)

module _ (ua : NodeIdApi) (bufs : BufferApi) (pdata : PdataApi) (std : StdApi) where
  open ua use {NodeId}
  open pdata use {LogRecord}

  -- Whatever bytes the raw bodies of an array are made of, and where those that gopcua has decoded
  -- hold fields of their Go types, the log record that the transformer fills from a record of the
  -- array has a trace id of 16 bytes, a span id of 8 bytes and the sampled flag, or it keeps the
  -- trace id, the span id and the flags that it had.
  pub parse_extension_object_array-HasIds :
      (objs : List (Option (Body NodeId))) (now : Time) (r : LogRecord)
      → TypedReads bufs
      → All (TypedBody ua bufs) objs
      → All
          (λ o. HasIds pdata std r (transform_log_record pdata std now o r))
          (parse_extension_object_array ua bufs objs)
  parse_extension_object_array-HasIds objs now r reads h =
      All-map IsReceived _ (parse_extension_object_array ua bufs objs)
        (λ o i. transform_log_record-HasIds pdata std now o r i.context)
        (parse_extension_object_array-IsReceived ua bufs objs reads h)
