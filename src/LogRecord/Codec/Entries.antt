-- ===== src/LogRecord/Codec/Entries.antt =====
-- The additional data that `Decode` of receiver/opcua/log_record_type.go builds from the entries
-- that `Encode` wrote.
use opentelemetry_collector.Common.{
  ◌≡◌, ◌≢◌, refl, ◌∙◌, Option-cases, inl, inr, [], ◌∷◌, none, some, Text, Dict, lookup, insert,
  lookup-insert, text_eq_iff, arith,
}
use mathlib.Core.Option
use opentelemetry_collector.Value.{Value}
use opentelemetry_collector.Ua.Buffers.{IsWireText}
use opentelemetry_collector.LogRecord.Codec.{store}
use opentelemetry_collector.LogRecord.Variants.{variant_image, FitsWire}

-- An entry of the additional data fits its encoding.
abbrev pub EntryFits : Text × Value → Type 0
EntryFits (name, value) = IsWireText name × FitsWire value

-- The entries as they are stored again, one after the other: those with an empty name are
-- dropped, and each value is replaced by its image.
unfoldable pub stored : Dict Value → Dict Value → Dict Value
stored [] m = m
stored ((name, value) ∷ rest) m = stored rest (store name (variant_image value) m)

-- No key stands twice.
abbrev pub IsDistinct : Dict Value → Type 0
IsDistinct [] = Unit
IsDistinct ((k, v) ∷ m) = (lookup k m ≡ none) × IsDistinct m

lookup-stored_onto :
    (k : Text) (m acc : Dict Value)
    → k ≢ []
    → IsDistinct m
    → lookup k (stored m acc)
      ≡ elim (lookup k m) [ none ↦ lookup k acc | some v ↦ some (variant_image v) ]
unfolding stored lookup
lookup-stored_onto k [] acc h d = refl
lookup-stored_onto k (([], v) ∷ m) acc h (d, ds) =
    ground (arith, text_eq_iff [] k, lookup-stored_onto k m acc h ds)
lookup-stored_onto k ((c ∷ n, v) ∷ m) acc h (d, ds) = ground (
  arith,
  text_eq_iff (c ∷ n) k,
  lookup-insert (c ∷ n) k (variant_image v) acc,
  lookup-stored_onto k m (insert (c ∷ n) (variant_image v) acc) h ds,
)

-- Of a map with distinct keys, the entry under every name but the empty one is stored as the image of its value.
pub lookup-stored :
    (k : Text) (m : Dict Value)
    → k ≢ []
    → IsDistinct m
    → lookup k (stored m []) ≡ Option.map variant_image (lookup k m)
lookup-stored k m h d = elim (Option-cases (lookup k m)) [
  | inl e ↦ lookup-stored_onto k m [] h d ∙ rw e (unfold lookup in refl)
  | inr (v, e) ↦ lookup-stored_onto k m [] h d ∙ rw e
]
