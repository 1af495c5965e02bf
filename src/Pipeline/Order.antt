-- ===== src/Pipeline/Order.antt =====
-- The order in which Go visits the entries of a map, in `Encode` of
-- receiver/opcua/log_record_type.go and in what follows it up to `transformLogRecord` of
-- transformer.go.
use opentelemetry_collector.Common.{
  ◌≡◌, refl, sym, ap, ◌∙◌, [], ◌∷◌, Option, none, some, Text, text_eq, text_eq_iff, Dict, lookup,
  false, if◌then◌else◌, arith,
}
use mathlib.Core.List.{Permᴰ}
use mathlib.Core.Path.{subst}
use opentelemetry_collector.LogRecord.Codec.{LogRecordExtObj, encode}
use opentelemetry_collector.LogRecord.Codec.Entries.{IsDistinct, EntryFits}
use opentelemetry_collector.LogRecord.Codec.RoundTrip.{IsWire, record_image}
use opentelemetry_collector.Pdata.{Attribute, PdataApi, View}
use opentelemetry_collector.Pipeline.Attributes.{get-received, get-received_unnamed}
use opentelemetry_collector.Records.{log_record_ext_obj_to_record}
use opentelemetry_collector.Records.Parse.Arrays.{received, parse_raw-encode}
use opentelemetry_collector.Records.Parse.{raw, parse_log_record_from_extension_object}
use opentelemetry_collector.Common.{All, length, suc}
use opentelemetry_collector.Transformer.{StdApi, transform_log_record}
use opentelemetry_collector.Transformer.Attributes.{source_attribute}
use opentelemetry_collector.Ua.Buffers.{BufferApi}
use opentelemetry_collector.Ua.NodeIds.{NodeIdApi}
use opentelemetry_collector.Value.{Value, Time, OpcuaLogRecord}

-- Two maps with distinct keys and the same entries.
abbrev SameMap : Dict Value → Dict Value → Type 0
SameMap m m' = IsDistinct m' × ((k : Text) → lookup k m ≡ lookup k m')

SameMap-cons :
    (k : Text) (v : Value) (m m' : Dict Value)
    → lookup k m ≡ none
    → SameMap m m'
    → SameMap ((k, v) ∷ m) ((k, v) ∷ m')
unfolding lookup
SameMap-cons k v m m' h (d, same) = (
  (sym (same k) ∙ h, d),
  λ j. ap (λ (o : Option Value). if text_eq k j then some v else o) (same j),
)

SameMap-swap :
    (j k : Text) (v w : Value) (m : Dict Value)
    → IsDistinct ((j, v) ∷ (k, w) ∷ m)
    → SameMap ((j, v) ∷ (k, w) ∷ m) ((k, w) ∷ (j, v) ∷ m)
unfolding lookup
SameMap-swap j k v w m (h, (h', d)) =
    let apart : text_eq k j ≡ false = ground arith in
    let apart' : text_eq j k ≡ false = ground (arith, text_eq_iff j k, text_eq_iff k j) in
    (
      (rw apart' h', (ground arith, d)),
      λ i. ground (arith, text_eq_iff j i, text_eq_iff k i, text_eq_iff j k),
    )

Permᴰ-SameMap : {m m' : Dict Value} → Permᴰ m m' → IsDistinct m → SameMap m m'
Permᴰ-SameMap Permᴰ.nil d = (tt, λ k. refl)
Permᴰ-SameMap (Permᴰ.cons {a = a} {l₁ = m} {l₂ = m'} e p) (h, d) =
    subst (λ (b : Text × Value). SameMap (a ∷ m) (b ∷ m')) e
      (SameMap-cons a.0 a.1 m m' h (Permᴰ-SameMap p d))
Permᴰ-SameMap (Permᴰ.swap {a = a} {b = b} {b' = b'} {l = m} e e') d =
    subst (λ (x : Text × Value). SameMap (a ∷ b ∷ m) (x ∷ b' ∷ m)) e'
      (subst (λ (x : Text × Value). SameMap (a ∷ b ∷ m) (b ∷ x ∷ m)) e
        (SameMap-swap a.0 b.0 a.1 b.1 m d))
Permᴰ-SameMap (Permᴰ.trans p q) d =
    let (d', same) = Permᴰ-SameMap p d in
    let (d'', same') = Permᴰ-SameMap q d' in (d'', λ k. same k ∙ same' k)

Permᴰ-All : (P : Text × Value → Type 0) {m m' : Dict Value} → Permᴰ m m' → All P m → All P m'
Permᴰ-All P Permᴰ.nil h = tt
Permᴰ-All P (Permᴰ.cons e p) (h, hs) = (subst P e h, Permᴰ-All P p hs)
Permᴰ-All P (Permᴰ.swap e e') (h, (h', hs)) = (subst P e' h', (subst P e h, hs))
Permᴰ-All P (Permᴰ.trans p q) h = Permᴰ-All P q (Permᴰ-All P p h)

Permᴰ-length : {m m' : Dict Value} → Permᴰ m m' → length m' ≡ length m
Permᴰ-length Permᴰ.nil = refl
Permᴰ-length (Permᴰ.cons e p) = ap suc (Permᴰ-length p)
Permᴰ-length (Permᴰ.swap e e') = refl
Permᴰ-length (Permᴰ.trans p q) = Permᴰ-length q ∙ Permᴰ-length p

module _ (ua : NodeIdApi) (bufs : BufferApi) (pdata : PdataApi) (std : StdApi) where
  open ua use {NodeId}

  -- What the log record that the transformer fills from a record holds under a key.
  abbrev pub attribute_at : Time → OpcuaLogRecord → Text → Option Attribute
  attribute_at now o k =
      pdata.get
        (View.attributes (pdata.view (transform_log_record pdata std now o pdata.new_log_record))) k

  -- What the parser makes of the bytes of `Encode`.
  abbrev pub parsed : LogRecordExtObj NodeId → Option OpcuaLogRecord
  parsed l = parse_log_record_from_extension_object ua bufs (raw (encode ua bufs l).0)

  reordered-IsWire :
      (l : LogRecordExtObj NodeId) (m : Dict Value)
      → IsWire ua bufs l
      → Permᴰ l.additional_data m
      → IsWire ua bufs (record l { additional_data = m })
  reordered-IsWire l m w p = record {
    time = w.time;
    severity = w.severity;
    event_type_node = w.event_type_node;
    source_node = w.source_node;
    source_name = w.source_name;
    message = w.message;
    trace_id_length = w.trace_id_length;
    trace_id_bytes = w.trace_id_bytes;
    span_id = w.span_id;
    parent_span_id = w.parent_span_id;
    parent_identifier = w.parent_identifier;
    additional_data = Permᴰ-All EntryFits p w.additional_data;
    entries = rw (Permᴰ-length p) w.entries;
  }

  same_attribute :
      (now : Time) (l : LogRecordExtObj NodeId) (m : Dict Value) (k : Text)
      → IsDistinct l.additional_data
      → Permᴰ l.additional_data m
      → attribute_at now (received ua bufs (record l { additional_data = m })) k
        ≡ attribute_at now (received ua bufs l) k
  unfolding log_record_ext_obj_to_record record_image source_attribute
  same_attribute now l m [] d p =
      get-received_unnamed ua bufs pdata std now (record l { additional_data = m })
      ∙ sym (get-received_unnamed ua bufs pdata std now l)
  same_attribute now l m (c ∷ k) d p =
      let (d', same) = Permᴰ-SameMap p d in
      get-received ua bufs pdata std now (record l { additional_data = m }) (c ∷ k) d' (λ e. cc)
      ∙ rw (← same (c ∷ k)) (sym (get-received ua bufs pdata std now l (c ∷ k) d (λ e. cc)))

  -- In whatever order `Encode` visits the additional data of a record that fits the wire, whose
  -- names are distinct, the parser makes a record of the bytes, and under every key the log record
  -- that the transformer fills from it holds the same.
  pub get-parsed_reordered :
      (now : Time) (l : LogRecordExtObj NodeId) (m : Dict Value) (k : Text)
      → IsWire ua bufs l
      → IsDistinct l.additional_data
      → Permᴰ l.additional_data m
      → (o o' : OpcuaLogRecord) × (parsed l ≡ some o)
        × (parsed (record l { additional_data = m }) ≡ some o')
        × (attribute_at now o' k ≡ attribute_at now o k)
  get-parsed_reordered now l m k w d p = (
    received ua bufs l,
    received ua bufs (record l { additional_data = m }),
    parse_raw-encode ua bufs l w,
    parse_raw-encode ua bufs (record l { additional_data = m }) (reordered-IsWire l m w p),
    same_attribute now l m k d p,
  )
