-- ===== src/Mock/Client/Entries.antt =====
-- The entries of "AdditionalData" between receiver/opcua/testdata/mock_server.go, which makes them of
-- a record's attributes, and receiver/opcua/testdata/mock_client.go, which reads them.
use opentelemetry_collector.Common.{
  ◌≡◌, refl, sym, ap, ◌∙◌, false, Bool-cases, inl, inr, [], ◌∷◌, ◌++◌, none, Text, lit, text_eq,
  text_eq_iff, Dict, lookup, insert, arith,
}
use mathlib.Core.List.{append_assoc, append-nil}
use opentelemetry_collector.LogRecord.Codec.Entries.{IsDistinct}
use opentelemetry_collector.Mock.Client.{take_items, take_item}
use opentelemetry_collector.Mock.Handler.{name_values}
use opentelemetry_collector.Records.Parse.{field_at}
use opentelemetry_collector.Value.{Value, done, field}

insert_last :
    (k : Text) (v : Value) (m : Dict Value) → lookup k m ≡ none → insert k v m ≡ m ++ ((k, v) ∷ [])
unfolding lookup insert
insert_last k v [] h = refl
insert_last k v ((j, w) ∷ m) h = elim (Bool-cases (text_eq j k)) [
  | inl is ↦ ground (arith, is, h)
  | inr isnt ↦
      rw isnt (ap (λ (l : Dict Value). (j, w) ∷ l) (insert_last k v m (ground (arith, isnt, h))))
]

-- The keys of the second map are new to the first.
abbrev pub AreNew : Dict Value → Dict Value → Type 0
AreNew m [] = Unit
AreNew m ((k, v) ∷ d) = (lookup k m ≡ none) × AreNew m d

lookup-last :
    (j k : Text) (v : Value) (m : Dict Value)
    → lookup j m ≡ none
    → text_eq k j ≡ false
    → lookup j (m ++ ((k, v) ∷ [])) ≡ none
unfolding lookup
lookup-last j k v [] h n = rw n
lookup-last j k v ((i, w) ∷ m) h n = elim (Bool-cases (text_eq i j)) [
  | inl is ↦ ground (arith, is, h)
  | inr isnt ↦ rw isnt (lookup-last j k v m (ground (arith, isnt, h)) n)
]

AreNew-last :
    (k : Text) (v : Value) (m d : Dict Value)
    → AreNew m d
    → lookup k d ≡ none
    → AreNew (m ++ ((k, v) ∷ [])) d
unfolding lookup
AreNew-last k v m [] h n = tt
AreNew-last k v m ((j, w) ∷ d) (h, hs) n = elim (Bool-cases (text_eq j k)) [
  | inl is ↦ ground (arith, is, n)
  | inr isnt ↦
      let other : text_eq k j ≡ false = ground (arith, text_eq_iff k j, text_eq_iff j k, isnt) in
      (lookup-last j k v m h other, AreNew-last k v m d hs (ground (arith, isnt, n)))
]

take_item-name_value :
    (k : Text) (v : Value) (m : Dict Value)
    → take_item (Value.dict (field (lit "Name") (Value.text k) (field (lit "Value") v done))) m
      ≡ insert k v m
unfolding take_item field_at lit text_eq
take_item-name_value k v m = refl

take_items-name_value :
    (k : Text) (v : Value) (d m : Dict Value)
    → take_items (name_values ((k, v) ∷ d)) m ≡ take_items (name_values d) (insert k v m)
unfolding take_items name_values
take_items-name_value k v d m =
    ap (λ (a : Dict Value). take_items (name_values d) a) (take_item-name_value k v m)

pub take_items-name_values :
    (d m : Dict Value) → IsDistinct d → AreNew m d → take_items (name_values d) m ≡ m ++ d
take_items-name_values [] m h n = (unfold take_items name_values in sym (append-nil m))
take_items-name_values ((k, v) ∷ d) m (h, hs) (n, ns) =
    rw (take_items-name_value, insert_last k v m n)
      (take_items-name_values d (m ++ ((k, v) ∷ [])) hs (AreNew-last k v m d ns h)
        ∙ append_assoc m ((k, v) ∷ []) d)

pub AreNew-empty : (d : Dict Value) → AreNew [] d
unfolding lookup
AreNew-empty [] = tt
AreNew-empty ((k, v) ∷ d) = (refl, AreNew-empty d)
