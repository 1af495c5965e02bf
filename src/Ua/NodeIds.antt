-- ===== src/Ua/NodeIds.antt =====
-- Node identifiers of gopcua (package ua), used by receiver/opcua/get_records.go, client.go and
-- log_record_type.go.
use opentelemetry_collector.Common.{ℕ, ◌^◌, ◌<◌, ◌≡◌, Bool, true, false, Option, Text}

-- The values of `ua.NodeIDType`.
pub data NodeIdType : Type 0 where
  two_byte four_byte numeric string guid byte_string : NodeIdType

abbrev pub is_numeric : NodeIdType → Bool
is_numeric two_byte = true
is_numeric four_byte = true
is_numeric numeric = true
is_numeric string = false
is_numeric guid = false
is_numeric byte_string = false

pub record NodeIdApi : Type 1 where
  pub NodeId : Type 0
  pub new_numeric : ℕ → ℕ → NodeId
  pub new_string : ℕ → Text → NodeId
  pub namespace : NodeId → ℕ
  pub type_of : NodeId → NodeIdType
  pub int_id : NodeId → ℕ
  pub string_id : NodeId → Text
  -- `NodeID.String` and `ua.ParseNodeID`
  pub print : NodeId → Text
  pub parse : Text → Option NodeId
  -- A constructor's arguments are what the accessors give back.
  pub numeric_type : (ns id : ℕ) → is_numeric (type_of (new_numeric ns id)) ≡ true
  pub numeric_namespace : (ns id : ℕ) → ns < 2 ^ 16 → namespace (new_numeric ns id) ≡ ns
  pub numeric_int_id : (ns id : ℕ) → id < 2 ^ 32 → int_id (new_numeric ns id) ≡ id
  pub string_type : (ns : ℕ) (s : Text) → type_of (new_string ns s) ≡ string
  pub string_namespace : (ns : ℕ) (s : Text) → ns < 2 ^ 16 → namespace (new_string ns s) ≡ ns
  pub string_string_id : (ns : ℕ) (s : Text) → string_id (new_string ns s) ≡ s
  -- A namespace is a uint16. A numeric identifier is a uint32, and 0 where there is none.
  pub namespace_range : (n : NodeId) → namespace n < 2 ^ 16
  pub int_id_range : (n : NodeId) → int_id n < 2 ^ 32
  pub int_id_other : (n : NodeId) → is_numeric (type_of n) ≡ false → int_id n ≡ 0
