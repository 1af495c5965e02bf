-- ===== src/Transformer/Frame.antt =====
-- What `transformLogRecord` of receiver/opcua/transformer.go sets whether or not a record has a
-- trace context.
use opentelemetry_collector.Common.{
  ℕ, ◌≡◌, refl, ◌∙◌, Bool-cases, not, ◌&&◌, inl, inr, List, Option, none, some, length, ◌==◌,
  is_empty, Text,
}
use mathlib.Core.Path.{subst}
use opentelemetry_collector.LogRecord.Hex.{decode_hex}
use opentelemetry_collector.Pdata.{PdataApi, View}
use opentelemetry_collector.Severity.{map_severity, severity_to_text}
use opentelemetry_collector.Transformer.{
  StdApi, put_source, put_attributes, set_id, set_trace_context, transform_log_record,
}
use opentelemetry_collector.Value.{OpcuaLogRecord, Time}

module _ (pdata : PdataApi) (std : StdApi) where
  open pdata use {Map, Timestamp, Flags, LogRecord, view, new_timestamp}

  abbrev Held : Type 0
  Held = View Map Timestamp Flags

  -- The two agree in everything but the trace id, the span id and the flags.
  pub record AgreesOutsideTrace (a b : Held) : Type 0 where
    pub timestamp : View.timestamp a ≡ View.timestamp b
    pub observed_timestamp : View.observed_timestamp a ≡ View.observed_timestamp b
    pub severity_number : View.severity_number a ≡ View.severity_number b
    pub severity_text : View.severity_text a ≡ View.severity_text b
    pub body : View.body a ≡ View.body b
    pub attributes : View.attributes a ≡ View.attributes b

  agrees_but :
      (a : Held) (t s : List ℕ) (f : Flags)
      → AgreesOutsideTrace (record a { trace_id = t; span_id = s; flags = f }) a
  agrees_but a t s f = record {
    timestamp = refl;
    observed_timestamp = refl;
    severity_number = refl;
    severity_text = refl;
    body = refl;
    attributes = refl;
  }

  agrees_refl : (a : Held) → AgreesOutsideTrace a a
  agrees_refl a = agrees_but a (View.trace_id a) (View.span_id a) (View.flags a)

  agrees_trans :
      (a b c : Held) → AgreesOutsideTrace a b → AgreesOutsideTrace b c → AgreesOutsideTrace a c
  agrees_trans a b c h k = record {
    timestamp = h.timestamp ∙ k.timestamp;
    observed_timestamp = h.observed_timestamp ∙ k.observed_timestamp;
    severity_number = h.severity_number ∙ k.severity_number;
    severity_text = h.severity_text ∙ k.severity_text;
    body = h.body ∙ k.body;
    attributes = h.attributes ∙ k.attributes;
  }

  agrees-trace_id :
      (r : LogRecord) (bs : List ℕ) → AgreesOutsideTrace (view (pdata.set_trace_id r bs)) (view r)
  agrees-trace_id r bs =
      rw pdata.view-trace_id (agrees_but (view r) bs (View.span_id (view r)) (View.flags (view r)))

  agrees-span_id :
      (r : LogRecord) (bs : List ℕ) → AgreesOutsideTrace (view (pdata.set_span_id r bs)) (view r)
  agrees-span_id r bs =
      rw pdata.view-span_id (agrees_but (view r) (View.trace_id (view r)) bs (View.flags (view r)))

  agrees-flags :
      (r : LogRecord) (f : Flags) → AgreesOutsideTrace (view (pdata.set_flags r f)) (view r)
  agrees-flags r f =
      rw pdata.view-flags (agrees_but (view r) (View.trace_id (view r)) (View.span_id (view r)) f)

  agrees-set_id :
      (set : LogRecord → List ℕ → LogRecord) (width : ℕ) (r : LogRecord) (o : Option (List ℕ))
      → ((x : LogRecord) (bs : List ℕ) → AgreesOutsideTrace (view (set x bs)) (view x))
      → AgreesOutsideTrace (view (set_id pdata std set width r o)) (view r)
  unfolding set_id
  agrees-set_id set width r none h = agrees_refl (view r)
  agrees-set_id set width r (some bytes) h = elim (Bool-cases (length bytes == width)) [
    | inl is ↦ rw is (h r bytes)
    | inr isnt ↦ rw isnt (agrees_refl (view r))
  ]

  agrees-set_trace_context :
      (r : LogRecord) (t s : Text) (flags : ℕ)
      → AgreesOutsideTrace (view (set_trace_context pdata std r t s flags)) (view r)
  unfolding set_trace_context
  agrees-set_trace_context r t s flags =
      let traced = set_id pdata std pdata.set_trace_id 16 r (decode_hex t) in
      let spanned = set_id pdata std pdata.set_span_id 8 traced (decode_hex s) in
      agrees_trans _ (view spanned) _ (agrees-flags spanned _) (
        agrees_trans _ (view traced) _
          (agrees-set_id pdata.set_span_id 8 traced (decode_hex s) agrees-span_id)
          (agrees-set_id pdata.set_trace_id 16 r (decode_hex t) agrees-trace_id))

  -- What a log record holds of a record and of what it held before, without the trace context.
  unfoldable pub described : Time → OpcuaLogRecord → Held → Held
  described now o held = record held {
    timestamp = new_timestamp o.timestamp;
    observed_timestamp = new_timestamp now;
    severity_number = map_severity o.severity;
    severity_text = severity_to_text o.severity;
    body = o.message;
    attributes =
        put_attributes pdata std (put_source pdata std (View.attributes held) o) o.attributes;
  }

  -- The log record before its trace context is set.
  abbrev filled : Time → OpcuaLogRecord → LogRecord → LogRecord
  filled now o r =
      let r1 = pdata.set_timestamp r (new_timestamp o.timestamp) in
      let r2 = pdata.set_observed_timestamp r1 (new_timestamp now) in
      let r3 = pdata.set_severity_number r2 (map_severity o.severity) in
      let r4 = pdata.set_severity_text r3 (severity_to_text o.severity) in
      let r5 = pdata.set_body r4 o.message in
      pdata.set_attributes r5
        (put_attributes pdata std (put_source pdata std (View.attributes (view r5)) o) o.attributes)

  view-filled :
      (now : Time) (o : OpcuaLogRecord) (r : LogRecord)
      → view (filled now o r) ≡ described now o (view r)
  unfolding described
  view-filled now o r = rw (
    pdata.view-attributes, pdata.view-body, pdata.view-severity_text, pdata.view-severity_number,
    pdata.view-observed_timestamp, pdata.view-timestamp,
  )

  -- Whatever trace context a record has, and however malformed its identifiers are, the log record
  -- gets the timestamps, the severity and its text, the body and the attributes that the record
  -- describes: `setTraceContext` changes none of them.
  pub transform_log_record-AgreesOutsideTrace :
      (now : Time) (o : OpcuaLogRecord) (r : LogRecord)
      → AgreesOutsideTrace
          (view (transform_log_record pdata std now o r))
          (described now o (view r))
  unfolding transform_log_record
  transform_log_record-AgreesOutsideTrace now o r =
      let same =
        subst (AgreesOutsideTrace (view (filled now o r))) (view-filled now o r)
          (agrees_refl (view (filled now o r))) in
      elim (Bool-cases (not (is_empty o.trace_id) && not (is_empty o.span_id))) [
        | inl traced ↦ rw traced (
            agrees_trans _ (view (filled now o r)) _
              (agrees-set_trace_context (filled now o r) o.trace_id o.span_id o.trace_flags) same)
        | inr plain ↦ rw plain same
      ]
