-- ===== src/Transformer/Attributes.antt =====
-- What receiver/opcua/transformer.go puts under each key of a log record's attributes.
use opentelemetry_collector.Common.{
  ℕ, suc, ◌≡◌, refl, ◌∙◌, Bool-cases, Option-cases, not, ◌&&◌, inl, inr, List, [], ◌∷◌, Option,
  none, some, length, ◌==◌, if◌then◌else◌, Text, lit, is_empty, text_eq, text_eq_iff, Dict, lookup,
  arith,
}
use mathlib.Core.Path.{subst}
use opentelemetry_collector.LogRecord.Codec.Entries.{IsDistinct}
use opentelemetry_collector.LogRecord.Hex.{decode_hex}
use opentelemetry_collector.Pdata.{Attribute, PdataApi, View}
use opentelemetry_collector.Transformer.{
  StdApi, Transformer, put_source, put_attribute, put_attributes, set_id, set_trace_context,
  transform_log_record, transform_records, transform_logs,
}
use opentelemetry_collector.Value.{Value, OpcuaLogRecord, Time}

module _ (pdata : PdataApi) (std : StdApi) where
  open pdata use {Map, LogRecord, view, get, put_str, new_log_record}

  -- The attribute that a value becomes: texts, `int`, int64, float64 and bool keep their type, and
  -- everything else is printed.
  unfoldable pub attribute_of : Value → Attribute
  attribute_of (Value.text v) = Attribute.str v
  attribute_of (Value.int v) = Attribute.int v
  attribute_of (Value.int64 v) = Attribute.int v
  attribute_of (Value.float64 v) = Attribute.double v
  attribute_of (Value.bool v) = Attribute.bool v
  attribute_of v = Attribute.str (std.sprint v)

  -- The attributes that tell where a record comes from.
  unfoldable pub source_attribute : OpcuaLogRecord → Text → Option Attribute
  source_attribute o k =
      let name =
        if text_eq (lit "opcua.source.name") k && not (is_empty o.source_name)
        then some (Attribute.str o.source_name)
        else none in
      if is_empty o.source_id_type
      then name
      else if text_eq (lit "opcua.source.id") k
      then some (Attribute.str o.source_id)
      else if text_eq (lit "opcua.source.id_type") k
      then some (Attribute.str o.source_id_type)
      else if text_eq (lit "opcua.source.namespace") k
      then some (Attribute.int o.source_namespace)
      else name

  get-put_attribute :
      (m : Map) (j k : Text) (v : Value)
      → get (put_attribute pdata std m j v) k
        ≡ (if text_eq j k then some (attribute_of v) else get m k)
  unfolding put_attribute attribute_of
  get-put_attribute m j k (Value.text v) = pdata.get-put_str m j v k
  get-put_attribute m j k (Value.int v) = pdata.get-put_int m j v k
  get-put_attribute m j k (Value.int64 v) = pdata.get-put_int m j v k
  get-put_attribute m j k (Value.float64 v) = pdata.get-put_double m j v k
  get-put_attribute m j k (Value.bool v) = pdata.get-put_bool m j v k
  get-put_attribute m j k _ = pdata.get-put_str m j _ k

  -- The last entry under a key counts, which of distinct keys is the only one.
  get-put_attributes :
      (m : Map) (d : Dict Value) (k : Text)
      → IsDistinct d
      → get (put_attributes pdata std m d) k
        ≡ elim (lookup k d) [ none ↦ get m k | some v ↦ some (attribute_of v) ]
  unfolding put_attributes lookup
  get-put_attributes m [] k h = refl
  get-put_attributes m ((j, v) ∷ d) k (h, hs) =
      get-put_attributes (put_attribute pdata std m j v) d k hs ∙ elim (Bool-cases (text_eq j k)) [
        | inl is ↦
            let gone : lookup k d ≡ none =
              subst (λ i. lookup i d ≡ none) ((text_eq_iff j k).0 is) h in
            rw (gone, is, get-put_attribute m j k v, is)
        | inr isnt ↦ elim (Option-cases (lookup k d)) [
          | inl e ↦ rw (e, isnt, get-put_attribute m j k v, isnt)
          | inr (w, e) ↦ rw (e, isnt)
        ]
      ]

  get-put_source :
      (m : Map) (o : OpcuaLogRecord) (k : Text)
      → get m k ≡ none
      → get (put_source pdata std m o) k ≡ source_attribute o k
  unfolding put_source source_attribute
  get-put_source m o k h = elim (Bool-cases (is_empty o.source_name)) [
    | inl anonymous ↦ elim (Bool-cases (is_empty o.source_id_type)) [
      | inl detached ↦ rw (anonymous, detached, h) (ground arith)
      | inr there ↦
          rw (anonymous, there) (simp (pdata.get-put_str, pdata.get-put_int, h) (ground arith))
    ]
    | inr named ↦ elim (Bool-cases (is_empty o.source_id_type)) [
      | inl detached ↦ rw (named, detached) (simp (pdata.get-put_str, h) (ground arith))
      | inr there ↦
          rw (named, there) (simp (pdata.get-put_str, pdata.get-put_int, h) (ground arith))
    ]
  ]

  attributes-set_id :
      (set : LogRecord → List ℕ → LogRecord) (width : ℕ) (r : LogRecord) (o : Option (List ℕ))
      → ((x : LogRecord) (bs : List ℕ)
          → View.attributes (view (set x bs)) ≡ View.attributes (view x))
      → View.attributes (view (set_id pdata std set width r o)) ≡ View.attributes (view r)
  unfolding set_id
  attributes-set_id set width r none h = refl
  attributes-set_id set width r (some bytes) h = elim (Bool-cases (length bytes == width)) [
    | inl is ↦ rw is (h r bytes)
    | inr isnt ↦ rw isnt
  ]

  attributes-set_trace_context :
      (r : LogRecord) (t s : Text) (flags : ℕ)
      → View.attributes (view (set_trace_context pdata std r t s flags)) ≡ View.attributes (view r)
  unfolding set_trace_context
  attributes-set_trace_context r t s flags = rw pdata.view-flags (
      attributes-set_id pdata.set_span_id 8 _ (decode_hex s) (λ x bs. rw pdata.view-span_id)
      ∙ attributes-set_id pdata.set_trace_id 16 r (decode_hex t) (λ x bs. rw pdata.view-trace_id))

  attributes-transform_log_record :
      (now : Time) (o : OpcuaLogRecord) (r : LogRecord)
      → View.attributes (view (transform_log_record pdata std now o r))
        ≡ put_attributes pdata std (put_source pdata std (View.attributes (view r)) o) o.attributes
  unfolding transform_log_record
  attributes-transform_log_record now o r =
      elim (Bool-cases (not (is_empty o.trace_id) && not (is_empty o.span_id))) [
        | inl traced ↦ rw (
          traced, attributes-set_trace_context, pdata.view-attributes, pdata.view-body,
          pdata.view-severity_text, pdata.view-severity_number, pdata.view-observed_timestamp,
          pdata.view-timestamp,
        )
        | inr plain ↦ rw (
          plain, pdata.view-attributes, pdata.view-body, pdata.view-severity_text,
          pdata.view-severity_number, pdata.view-observed_timestamp, pdata.view-timestamp,
        )
      ]

  -- Under every key, the attributes of a fresh log record that is filled from a record whose
  -- attribute keys are distinct hold the record's own attribute of that key, converted by
  -- `attribute_of`; if there is none, what `source_attribute` tells of the source; and nothing
  -- under any other key.
  pub get-transform_log_record :
      (now : Time) (o : OpcuaLogRecord) (k : Text)
      → IsDistinct o.attributes
      → get (View.attributes (view (transform_log_record pdata std now o new_log_record))) k
        ≡ elim (lookup k o.attributes) [
          | none ↦ source_attribute o k
          | some v ↦ some (attribute_of v)
        ]
  get-transform_log_record now o k d =
      let there =
        get-put_source (View.attributes (view new_log_record)) o k
          (rw pdata.new-attributes (pdata.get-new_map k)) in
      rw (attributes-transform_log_record now o new_log_record) (
        get-put_attributes (put_source pdata std (View.attributes (view new_log_record)) o)
          o.attributes k d
        ∙ elim (Option-cases (lookup k o.attributes)) [ inl e ↦ rw e there | inr (v, e) ↦ rw e ])

  length-transform_records :
      (clock : ℕ → Time) (i : ℕ) (rs : List OpcuaLogRecord)
      → length (transform_records pdata std clock i rs) ≡ length rs
  unfolding transform_records
  length-transform_records clock i [] = refl
  length-transform_records clock i (r ∷ rs) = rw (length-transform_records clock (suc i) rs)

  -- The logs hold one log record for each record, none lost and none twice, and no log record for
  -- an empty list.
  pub count-transform_logs :
      (t : Transformer) (clock : ℕ → Time) (rs : List OpcuaLogRecord)
      → pdata.log_record_count (transform_logs pdata std t clock rs) ≡ length rs
  unfolding transform_logs
  count-transform_logs t clock [] = pdata.count-new_logs
  count-transform_logs t clock (r ∷ rs) =
      rw (pdata.count-append, pdata.count-new_logs)
        (omega (arith, length-transform_records clock 0 (r ∷ rs)))
