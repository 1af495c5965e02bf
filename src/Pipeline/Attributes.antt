-- ===== src/Pipeline/Attributes.antt =====
-- The additional data of a record on its way from a server to the consumer: `Encode` and `Decode` of
-- receiver/opcua/log_record_type.go, `logRecordExtObjToRecord` of get_records.go and
-- `transformLogRecord` of transformer.go together.
use opentelemetry_collector.Common.{
  ◌≡◌, ◌≢◌, refl, ◌∙◌, Bool-cases, Option-cases, inl, inr, [], ◌∷◌, Option, none, some, is_empty,
  Text, text_eq, text_eq_iff, Dict, lookup, insert, lookup-insert, arith,
}
use mathlib.Core.Option
use opentelemetry_collector.LogRecord.Codec.{LogRecordExtObj, encode}
use opentelemetry_collector.LogRecord.Codec.Entries.{IsDistinct, stored, lookup-stored}
use opentelemetry_collector.LogRecord.Codec.RoundTrip.{IsWire, record_image}
use opentelemetry_collector.LogRecord.Variants.{variant_image}
use opentelemetry_collector.Pdata.{PdataApi, View}
use opentelemetry_collector.Records.{promote, log_record_ext_obj_to_record}
use opentelemetry_collector.Records.Parse.Arrays.{received, parse_raw-encode}
use opentelemetry_collector.Records.Parse.{raw, parse_log_record_from_extension_object}
use opentelemetry_collector.Transformer.{StdApi, transform_log_record}
use opentelemetry_collector.Transformer.Attributes.{
  attribute_of, source_attribute, get-transform_log_record,
}
use opentelemetry_collector.Ua.Buffers.{BufferApi}
use opentelemetry_collector.Ua.NodeIds.{NodeIdApi}
use opentelemetry_collector.Value.{Value, Time, OpcuaLogRecord}

-- Inserting keeps the keys of a map distinct.
insert-IsDistinct :
    (k : Text) (v : Value) (m : Dict Value) → IsDistinct m → IsDistinct (insert k v m)
unfolding insert lookup
insert-IsDistinct k v [] d = (refl, tt)
insert-IsDistinct k v ((j, w) ∷ m) (d, ds) = elim (Bool-cases (text_eq j k)) [
  | inl is ↦ rw is (ground (arith, text_eq_iff j k, is, d), ds)
  | inr isnt ↦ rw isnt (
    lookup-insert k j v m ∙ ground (arith, text_eq_iff j k, text_eq_iff k j, isnt, d),
    insert-IsDistinct k v m ds,
  )
]

stored-IsDistinct : (m acc : Dict Value) → IsDistinct acc → IsDistinct (stored m acc)
unfolding stored
stored-IsDistinct [] acc d = d
stored-IsDistinct ((name, value) ∷ m) acc d = elim (Bool-cases (is_empty name)) [
  | inl none_there ↦ rw none_there (stored-IsDistinct m acc d)
  | inr there ↦ rw there (
      stored-IsDistinct m (insert name (variant_image value) acc)
        (insert-IsDistinct name (variant_image value) acc d))
]

promote-IsDistinct : (m acc : Dict Value) → IsDistinct acc → IsDistinct (promote m acc)
unfolding promote
promote-IsDistinct [] acc d = d
promote-IsDistinct ((k, v) ∷ m) acc d =
    promote-IsDistinct m (insert k v acc) (insert-IsDistinct k v acc d)

lookup-promote :
    (k : Text) (m acc : Dict Value)
    → IsDistinct m
    → lookup k (promote m acc) ≡ elim (lookup k m) [ none ↦ lookup k acc | some v ↦ some v ]
unfolding promote lookup
lookup-promote k [] acc d = refl
lookup-promote k ((j, v) ∷ m) acc (d, ds) =
    ground (arith, text_eq_iff j k, lookup-insert j k v acc, lookup-promote k m (insert j v acc) ds)

lookup-stored_unnamed : (m acc : Dict Value) → lookup [] (stored m acc) ≡ lookup [] acc
unfolding stored lookup text_eq
lookup-stored_unnamed [] acc = refl
lookup-stored_unnamed (([], v) ∷ m) acc = lookup-stored_unnamed m acc
lookup-stored_unnamed ((c ∷ k, v) ∷ m) acc =
    lookup-stored_unnamed m (insert (c ∷ k) (variant_image v) acc)
    ∙ lookup-insert (c ∷ k) [] (variant_image v) acc

or_empty :
    (k : Text) (o : Option Value)
    → (elim o as (λ _. Option Value) [ none ↦ lookup k [] | some v ↦ some v ]) ≡ o
unfolding lookup
or_empty k none = refl
or_empty k (some v) = refl

module _ (ua : NodeIdApi) (bufs : BufferApi) where
  open ua use {NodeId}

  attributes-received :
      (l : LogRecordExtObj NodeId)
      → (received ua bufs l).attributes ≡ promote (stored l.additional_data []) []
  unfolding log_record_ext_obj_to_record record_image
  attributes-received l = refl

  received-IsDistinct : (l : LogRecordExtObj NodeId) → IsDistinct ((received ua bufs l).attributes)
  received-IsDistinct l =
      rw (attributes-received l) (promote-IsDistinct (stored l.additional_data []) [] tt)

  lookup-received :
      (l : LogRecordExtObj NodeId) (k : Text)
      → k ≢ []
      → IsDistinct l.additional_data
      → lookup k (received ua bufs l).attributes
        ≡ Option.map variant_image (lookup k l.additional_data)
  lookup-received l k h d = rw (attributes-received l) (
      lookup-promote k (stored l.additional_data []) [] (stored-IsDistinct l.additional_data [] tt)
      ∙ rw (lookup-stored k l.additional_data h d)
          (or_empty k (Option.map variant_image (lookup k l.additional_data))))

  -- What the transformer puts under a key for the record received.
  pub get-received :
      (pdata : PdataApi) (std : StdApi) (now : Time) (l : LogRecordExtObj NodeId) (k : Text)
      → IsDistinct l.additional_data
      → k ≢ []
      → pdata.get
          (View.attributes (
            pdata.view
              (transform_log_record pdata std now (received ua bufs l) pdata.new_log_record)))
          k
        ≡ elim (lookup k l.additional_data) [
          | none ↦ source_attribute pdata std (received ua bufs l) k
          | some v ↦ some (attribute_of pdata std (variant_image v))
        ]
  get-received pdata std now l k d h =
      get-transform_log_record pdata std now (received ua bufs l) k (received-IsDistinct l)
      ∙ rw (lookup-received l k h d)
          (elim (Option-cases (lookup k l.additional_data)) [ inl e ↦ rw e | inr (v, e) ↦ rw e ])

  -- Nothing comes of an entry with no name.
  pub get-received_unnamed :
      (pdata : PdataApi) (std : StdApi) (now : Time) (l : LogRecordExtObj NodeId)
      → pdata.get
          (View.attributes (
            pdata.view
              (transform_log_record pdata std now (received ua bufs l) pdata.new_log_record)))
          []
        ≡ source_attribute pdata std (received ua bufs l) []
  unfolding lookup
  get-received_unnamed pdata std now l =
      let gone : lookup [] (received ua bufs l).attributes ≡ none = rw (attributes-received l) (
        lookup-promote [] (stored l.additional_data []) []
          (stored-IsDistinct l.additional_data [] tt)
        ∙ rw (lookup-stored_unnamed l.additional_data []) (or_empty [] none)) in
      get-transform_log_record pdata std now (received ua bufs l) [] (received-IsDistinct l)
      ∙ rw gone

  -- Of a record that fits the wire and whose additional data have distinct names, as a Go map has:
  -- the parser makes a record of the bytes of `Encode`, and under every key but the empty one, the
  -- log record that the transformer fills from it holds the entry of that name, converted by
  -- `attribute_of` after it has lost what `variant_image` says; if there is none, what the source
  -- of the parsed record tells; and nothing under any other key.
  pub get-parsed :
      (pdata : PdataApi) (std : StdApi) (now : Time) (l : LogRecordExtObj NodeId) (k : Text)
      → IsWire ua bufs l
      → IsDistinct l.additional_data
      → k ≢ []
      → (o : OpcuaLogRecord) × (parse_log_record_from_extension_object ua bufs
            (raw (encode ua bufs l).0)
          ≡ some o)
        × (pdata.get
              (View.attributes
                (pdata.view (transform_log_record pdata std now o pdata.new_log_record)))
              k
            ≡ elim (lookup k l.additional_data) [
              | none ↦ source_attribute pdata std o k
              | some v ↦ some (attribute_of pdata std (variant_image v))
            ])
  get-parsed pdata std now l k w d h =
      (received ua bufs l, parse_raw-encode ua bufs l w, get-received pdata std now l k d h)
