-- ===== src/Mock/Client/Keys.antt =====
-- What stands under each key of the map that `convertRecordsToVariant` of
-- receiver/opcua/testdata/mock_server.go makes of a record.
use opentelemetry_collector.Common.{
  ◌≡◌, refl, sym, ap, ◌∙◌, true, false, Bool-cases, ◌&&◌, inl, inr, [], ◌∷◌, none, is_nil,
  if◌then◌else◌, Text, lit, text_eq, text_eq_refl, is_empty, Dict,
}
use opentelemetry_collector.Mock.Handler.{
  record_map, name_values, trace_context, add_attributes, add_trace_context, add_source_name,
}
use opentelemetry_collector.Records.Parse.{
  field_at, as_text, as_dict, as_slice, as_time, as_uint16, or_else,
}
use opentelemetry_collector.Value.{Value, Fields, zero_time, OpcuaLogRecord, stop, done, field}

empty_text : (s : Text) → is_empty s ≡ true → s ≡ []
empty_text [] h = refl
empty_text (c ∷ s) h = cc

empty_entries : (d : Dict Value) → is_nil d ≡ true → d ≡ []
empty_entries [] h = refl
empty_entries (e ∷ d) h = cc

-- Where the fields of the map stand.
module _ (r : OpcuaLogRecord) where
  record_map_fields :
      record_map r
      ≡ field (lit "Time") (Value.time r.timestamp) (
          field (lit "Severity") (Value.uint16 r.severity) (
            field
              (lit "Message")
              (Value.text r.message)
              (add_source_name r (add_trace_context r (add_attributes r)))))
  unfolding record_map
  record_map_fields = refl

  skip_source_name :
      (m : Fields) (k : Text)
      → text_eq (lit "SourceName") k ≡ false
      → field_at k (add_source_name r m) ≡ field_at k m
  unfolding add_source_name field_at
  skip_source_name m k h = elim (Bool-cases (is_empty r.source_name)) [
    | inl e ↦ rw e
    | inr e ↦ rw (e, h)
  ]

  skip_trace_context :
      (m : Fields) (k : Text)
      → text_eq (lit "TraceContext") k ≡ false
      → field_at k (add_trace_context r m) ≡ field_at k m
  unfolding add_trace_context field_at
  skip_trace_context m k h = elim (Bool-cases (is_empty r.trace_id && is_empty r.span_id)) [
    | inl e ↦ rw e
    | inr e ↦ rw (e, h)
  ]

  skip_attributes :
      (k : Text) → text_eq (lit "AdditionalData") k ≡ false → field_at k (add_attributes r) ≡ none
  unfolding add_attributes field_at
  skip_attributes k h = elim (Bool-cases (is_nil r.attributes)) [ inl e ↦ rw e | inr e ↦ rw (e, h) ]

  read_source_name :
      (m : Fields)
      → field_at (lit "SourceName") m ≡ none
      → or_else (as_text (field_at (lit "SourceName") (add_source_name r m))) [] ≡ r.source_name
  unfolding add_source_name field_at
  read_source_name m h = elim (Bool-cases (is_empty r.source_name)) [
    | inl e ↦ rw (e, h) (sym (empty_text r.source_name e))
    | inr e ↦ rw (e, text_eq_refl (lit "SourceName"))
  ]

  read_trace_context :
      (m : Fields)
      → field_at (lit "TraceContext") m ≡ none
      → or_else (as_dict (field_at (lit "TraceContext") (add_trace_context r m))) done
        ≡ (if is_empty r.trace_id && is_empty r.span_id then done else trace_context r)
  unfolding add_trace_context field_at
  read_trace_context m h = elim (Bool-cases (is_empty r.trace_id && is_empty r.span_id)) [
    | inl e ↦ rw (e, h)
    | inr e ↦ rw (e, text_eq_refl (lit "TraceContext"))
  ]

  read_attributes :
      or_else (as_slice (field_at (lit "AdditionalData") (add_attributes r))) stop
      ≡ name_values r.attributes
  unfolding add_attributes field_at
  read_attributes = elim (Bool-cases (is_nil r.attributes)) [
    | inl e ↦ rw e (unfold name_values in ap name_values (sym (empty_entries r.attributes e)))
    | inr e ↦ rw (e, text_eq_refl (lit "AdditionalData"))
  ]

-- A key that differs from those that every map has.
abbrev IsOptional : Text → Type 0
IsOptional k =
    (text_eq (lit "Time") k ≡ false)
    × (text_eq (lit "Severity") k ≡ false)
    × (text_eq (lit "Message") k ≡ false)

abbrev IsNoName : Text → Type 0
IsNoName k = text_eq (lit "SourceName") k ≡ false

abbrev IsNoContext : Text → Type 0
IsNoContext k = text_eq (lit "TraceContext") k ≡ false

abbrev IsNoData : Text → Type 0
IsNoData k = text_eq (lit "AdditionalData") k ≡ false

source_name_key :
    IsOptional (lit "SourceName") × IsNoContext (lit "SourceName") × IsNoData (lit "SourceName")
unfolding lit text_eq
source_name_key = ((refl, refl, refl), refl, refl)

trace_context_key :
    IsOptional (lit "TraceContext") × IsNoName (lit "TraceContext") × IsNoData (lit "TraceContext")
unfolding lit text_eq
trace_context_key = ((refl, refl, refl), refl, refl)

additional_data_key :
    IsOptional (lit "AdditionalData")
    × IsNoName (lit "AdditionalData")
    × IsNoContext (lit "AdditionalData")
unfolding lit text_eq
additional_data_key = ((refl, refl, refl), refl, refl)

source_node_key :
    IsOptional (lit "SourceNode")
    × IsNoName (lit "SourceNode")
    × IsNoContext (lit "SourceNode")
    × IsNoData (lit "SourceNode")
unfolding lit text_eq
source_node_key = ((refl, refl, refl), refl, refl, refl)

module _ (r : OpcuaLogRecord) where
  at_optional :
      (k : Text)
      → IsOptional k
      → field_at k (record_map r)
        ≡ field_at k (add_source_name r (add_trace_context r (add_attributes r)))
  at_optional k (h1, h2, h3) = rw record_map_fields (unfold field_at in rw (h1, h2, h3))

  behind_name :
      (k : Text)
      → IsOptional k
      → IsNoName k
      → field_at k (record_map r) ≡ field_at k (add_trace_context r (add_attributes r))
  behind_name k h n =
      at_optional k h ∙ skip_source_name r (add_trace_context r (add_attributes r)) k n

  behind_context :
      (k : Text)
      → IsOptional k
      → IsNoName k
      → IsNoContext k
      → field_at k (record_map r) ≡ field_at k (add_attributes r)
  behind_context k h n c = behind_name k h n ∙ skip_trace_context r (add_attributes r) k c

  pub at_source_name :
      or_else (as_text (field_at (lit "SourceName") (record_map r))) [] ≡ r.source_name
  at_source_name =
      let (h, c, a) = source_name_key in
      rw (at_optional (lit "SourceName") h) (
        read_source_name r (add_trace_context r (add_attributes r)) (
          skip_trace_context r (add_attributes r) (lit "SourceName") c
          ∙ skip_attributes r (lit "SourceName") a))

  pub at_trace_context :
      or_else (as_dict (field_at (lit "TraceContext") (record_map r))) done
      ≡ (if is_empty r.trace_id && is_empty r.span_id then done else trace_context r)
  at_trace_context =
      let (h, n, a) = trace_context_key in
      rw (behind_name (lit "TraceContext") h n)
        (read_trace_context r (add_attributes r) (skip_attributes r (lit "TraceContext") a))

  pub at_attributes :
      or_else (as_slice (field_at (lit "AdditionalData") (record_map r))) stop
      ≡ name_values r.attributes
  at_attributes =
      let (h, n, c) = additional_data_key in
      rw (behind_context (lit "AdditionalData") h n c) (read_attributes r)

  pub at_time : or_else (as_time (field_at (lit "Time") (record_map r))) zero_time ≡ r.timestamp
  unfolding record_map field_at text_eq lit
  at_time = refl

  pub at_severity : or_else (as_uint16 (field_at (lit "Severity") (record_map r))) 0 ≡ r.severity
  unfolding record_map field_at text_eq lit
  at_severity = refl

  pub at_message : or_else (as_text (field_at (lit "Message") (record_map r))) [] ≡ r.message
  unfolding record_map field_at text_eq lit
  at_message = refl

  -- A server sends no map as a message, and no source node.
  pub message_no_dict : as_dict (field_at (lit "Message") (record_map r)) ≡ none
  unfolding record_map field_at text_eq lit
  message_no_dict = refl

  pub no_source_node : field_at (lit "SourceNode") (record_map r) ≡ none
  no_source_node =
      let (h, n, c, a) = source_node_key in
      behind_context (lit "SourceNode") h n c ∙ skip_attributes r (lit "SourceNode") a
