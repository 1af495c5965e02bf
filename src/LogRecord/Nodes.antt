-- ===== src/LogRecord/Nodes.antt =====
-- `readNodeIDFromBuffer` and `writeNodeIDToBuffer` of receiver/opcua/log_record_type.go.
pub mod Local
pub mod Typed
pub mod Laws
use opentelemetry_collector.Common.{
  ℕ, ◌%◌, ◌^◌, ◌<◌, ◌≡◌, refl, Bool, true, false, Bool-cases, ◌&&◌, inl, inr, List, [], ◌∷◌, ◌++◌,
  Text, Option, none, some, bit_and, leb, ◌==◌, if◌then◌else◌, arith,
}
use opentelemetry_collector.Ua.NodeIds.{
  NodeIdType, two_byte, four_byte, numeric, string, guid, byte_string, NodeIdApi,
}
use opentelemetry_collector.Ua.Buffers.{BufferApi, IsWireText}
use opentelemetry_collector.LogRecord.Wire.{
  State, ◌>>=◌, ◌>>◌, return, effect, Reads, Writes, Reads-map, Reads-bind, Writes-then,
}

abbrev pub is_string : NodeIdType → Bool
is_string two_byte = false
is_string four_byte = false
is_string numeric = false
is_string string = true
is_string guid = false
is_string byte_string = false

-- The identifier of a string node fits its encoding.
abbrev pub NodeFits : (ua : NodeIdApi) → Option (ua.NodeId) → Type 0
NodeFits ua none = Unit
NodeFits ua (some n) = IsWireText (ua.string_id n)

module _ (ua : NodeIdApi) (bufs : BufferApi) where
  open ua use {NodeId, new_numeric, new_string, namespace, type_of, int_id, string_id}
  open bufs use {
    Buffer, read_byte, read_uint16, read_uint32, read_string, write_byte, write_uint16,
    write_uint32, write_string, uint16_bytes, uint32_bytes, string_bytes,
  }

  read_two_byte : State Buffer NodeId
  read_two_byte = do id ← read_byte; return (new_numeric 0 id)

  read_four_byte : State Buffer NodeId
  read_four_byte = do ns ← read_byte; id ← read_uint16; return (new_numeric ns id)

  read_numeric : State Buffer NodeId
  read_numeric = do ns ← read_uint16; id ← read_uint32; return (new_numeric ns id)

  read_string_id : State Buffer NodeId
  read_string_id = do ns ← read_uint16; s ← read_string; return (new_string ns s)

  -- The switch on the encoding type. GUID and ByteString identifiers give the null node.
  read_encoded : ℕ → State Buffer NodeId
  read_encoded encoding_type =
      if encoding_type == 0x00
      then read_two_byte
      else if encoding_type == 0x01
      then read_four_byte
      else if encoding_type == 0x02
      then read_numeric
      else if encoding_type == 0x03
      then read_string_id
      else return (new_numeric 0 0)

  -- `readNodeIDFromBuffer`
  unfoldable pub read_node_id : State Buffer NodeId
  unfolding read_encoded read_two_byte read_four_byte read_numeric read_string_id
  read_node_id = do encoding_byte ← read_byte; read_encoded (bit_and encoding_byte 0x0F)

  write_null : State Buffer (Unit {0})
  write_null = do effect write_byte 0x00; effect write_byte 0x00

  write_string_id : NodeId → State Buffer (Unit {0})
  write_string_id n = do
    effect write_byte 0x03
    effect write_uint16 (namespace n)
    effect write_string (string_id n)

  write_numeric : ℕ → ℕ → State Buffer (Unit {0})
  write_numeric ns id =
      if ns == 0 && leb id 0xFF
      then (do effect write_byte 0x00; effect write_byte (id % 2 ^ 8))
      else if leb ns 0xFF && leb id 0xFFFF
      then (do
        effect write_byte 0x01
        effect write_byte (ns % 2 ^ 8)
        effect write_uint16 (id % 2 ^ 16))
      else (do effect write_byte 0x02; effect write_uint16 ns; effect write_uint32 id)

  -- `writeNodeIDToBuffer`; `none` is the nil pointer.
  unfoldable pub write_node_id : Option NodeId → State Buffer (Unit {0})
  unfolding write_null write_string_id write_numeric
  write_node_id none = write_null
  write_node_id (some n) =
      if namespace n == 0 && int_id n == 0
      then write_null
      else if is_string (type_of n)
      then write_string_id n
      else write_numeric (namespace n) (int_id n)

  -- The bytes that stand for a node on the wire.
  abbrev numeric_bytes : ℕ → ℕ → List ℕ
  numeric_bytes ns id =
      if ns == 0 && leb id 0xFF
      then 0x00 ∷ id ∷ []
      else if leb ns 0xFF && leb id 0xFFFF
      then 0x01 ∷ ns ∷ uint16_bytes id
      else 0x02 ∷ (uint16_bytes ns ++ uint32_bytes id)

  unfoldable pub node_bytes : Option NodeId → List ℕ
  node_bytes none = 0x00 ∷ 0x00 ∷ []
  node_bytes (some n) =
      if namespace n == 0 && int_id n == 0
      then 0x00 ∷ 0x00 ∷ []
      else if is_string (type_of n)
      then 0x03 ∷ (uint16_bytes (namespace n) ++ string_bytes (string_id n))
      else numeric_bytes (namespace n) (int_id n)

  -- The node that is read back for a node written.
  unfoldable pub node_image : Option NodeId → NodeId
  node_image none = new_numeric 0 0
  node_image (some n) =
      if namespace n == 0 && int_id n == 0
      then new_numeric 0 0
      else if is_string (type_of n)
      then new_string (namespace n) (string_id n)
      else new_numeric (namespace n) (int_id n)
