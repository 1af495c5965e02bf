-- ===== src/LogRecord/Nodes/Laws.antt =====
-- What `writeNodeIDToBuffer` of receiver/opcua/log_record_type.go appends, and that
-- `readNodeIDFromBuffer` reads it back.
use opentelemetry_collector.Common.{
  ℕ, ◌%◌, ◌^◌, ◌<◌, ◌≡◌, true, Bool-cases, ◌&&◌, inl, inr, List, [], ◌∷◌, ◌++◌, Text, Option, none,
  some, bit_and, leb, ◌==◌, arith,
}
use opentelemetry_collector.Ua.NodeIds.{NodeIdApi}
use opentelemetry_collector.Ua.Buffers.{BufferApi, IsWireText}
use opentelemetry_collector.LogRecord.Wire.{
  Reads, Writes, Writes-byte, Writes-uint16, Writes-uint32, Writes-string, Reads-byte, Reads-uint16,
  Reads-uint32, Reads-string, Reads-map, Reads-bind, Writes-then,
}
use opentelemetry_collector.LogRecord.Nodes.{
  is_string, NodeFits, read_two_byte, read_four_byte, read_numeric, read_string_id, read_encoded,
  read_node_id, write_null, write_string_id, write_numeric, write_node_id, numeric_bytes,
  node_bytes, node_image,
}

low_byte : (ns id : ℕ) → (ns == 0 && leb id 0xFF) ≡ true → id % 2 ^ 8 ≡ id
low_byte ns id h = ground arith

low_bytes :
    (ns id : ℕ) → (leb ns 0xFF && leb id 0xFFFF) ≡ true → (ns % 2 ^ 8 ≡ ns) × (id % 2 ^ 16 ≡ id)
low_bytes ns id h = ground arith

module _ (ua : NodeIdApi) (bufs : BufferApi) where
  open ua use {NodeId, new_numeric, new_string, namespace, type_of, int_id, string_id}
  open bufs use {
    Buffer, read_byte, read_uint16, read_uint32, read_string, write_byte, write_uint16,
    write_uint32, write_string, uint16_bytes, uint32_bytes, string_bytes,
  }

  Writes-null : Writes bufs (write_null ua bufs) (0x00 ∷ 0x00 ∷ [])
  unfolding write_null
  Writes-null = Writes-then bufs (Writes-byte bufs 0) (Writes-byte bufs 0)

  Writes-string_id :
      (n : NodeId)
      → Writes bufs
          (write_string_id ua bufs n)
          (0x03 ∷ (uint16_bytes (namespace n) ++ string_bytes (string_id n)))
  unfolding write_string_id
  Writes-string_id n =
      Writes-then bufs (Writes-byte bufs 3)
        (Writes-then bufs (Writes-uint16 bufs _) (Writes-string bufs _))

  Writes-numeric :
      (ns id : ℕ) → Writes bufs (write_numeric ua bufs ns id) (numeric_bytes ua bufs ns id)
  unfolding write_numeric
  Writes-numeric ns id = elim (Bool-cases (ns == 0 && leb id 0xFF)) [
    | inl two ↦
        rw two
          (rw (low_byte ns id two) (Writes-then bufs (Writes-byte bufs 0) (Writes-byte bufs id)))
    | inr wide ↦ rw wide (elim (Bool-cases (leb ns 0xFF && leb id 0xFFFF)) [
      | inl four ↦ rw four (
          rw ((low_bytes ns id four).0, (low_bytes ns id four).1)
            (Writes-then bufs (Writes-byte bufs 1)
              (Writes-then bufs (Writes-byte bufs ns) (Writes-uint16 bufs id))))
      | inr large ↦ rw large (
          Writes-then bufs (Writes-byte bufs 2)
            (Writes-then bufs (Writes-uint16 bufs ns) (Writes-uint32 bufs id)))
    ])
  ]

  pub Writes-write_node_id :
      (o : Option NodeId) → Writes bufs (write_node_id ua bufs o) (node_bytes ua bufs o)
  unfolding write_node_id node_bytes
  Writes-write_node_id none = Writes-null
  Writes-write_node_id (some n) = elim (Bool-cases (namespace n == 0 && int_id n == 0)) [
    | inl null ↦ rw null Writes-null
    | inr other ↦ rw other (elim (Bool-cases (is_string (type_of n))) [
      | inl is ↦ rw is (Writes-string_id n)
      | inr isnt ↦ rw isnt (Writes-numeric (namespace n) (int_id n))
    ])
  ]

  -- The bodies of the switch, each on what was written for it.
  Reads-two_byte :
      (id : ℕ) → id < 2 ^ 8 → Reads bufs (read_two_byte ua bufs) (id ∷ []) (new_numeric 0 id)
  unfolding read_two_byte
  Reads-two_byte id h = Reads-map bufs (new_numeric 0) (Reads-byte bufs id h)

  Reads-four_byte :
      (ns id : ℕ)
      → ns < 2 ^ 8
      → id < 2 ^ 16
      → Reads bufs (read_four_byte ua bufs) (ns ∷ uint16_bytes id) (new_numeric ns id)
  unfolding read_four_byte
  Reads-four_byte ns id h j =
      Reads-bind bufs _ (Reads-byte bufs ns h)
        (Reads-map bufs (new_numeric ns) (Reads-uint16 bufs id j))

  Reads-wide :
      (ns id : ℕ)
      → ns < 2 ^ 16
      → id < 2 ^ 32
      → Reads bufs (read_numeric ua bufs) (uint16_bytes ns ++ uint32_bytes id) (new_numeric ns id)
  unfolding read_numeric
  Reads-wide ns id h j =
      Reads-bind bufs _ (Reads-uint16 bufs ns h)
        (Reads-map bufs (new_numeric ns) (Reads-uint32 bufs id j))

  Reads-string_id :
      (ns : ℕ) (s : Text)
      → ns < 2 ^ 16
      → IsWireText s
      → Reads bufs (read_string_id ua bufs) (uint16_bytes ns ++ string_bytes s) (new_string ns s)
  unfolding read_string_id
  Reads-string_id ns s h w =
      Reads-bind bufs _ (Reads-uint16 bufs ns h)
        (Reads-map bufs (new_string ns) (Reads-string bufs s w))

  -- A node id is read by the body that its first byte selects.
  Reads-encoded :
      (k : ℕ) (front : List ℕ) (n : NodeId)
      → k < 2 ^ 8
      → Reads bufs (read_encoded ua bufs (bit_and k 0x0F)) front n
      → Reads bufs (read_node_id ua bufs) (k ∷ front) n
  unfolding read_node_id
  Reads-encoded k front n h r =
      Reads-bind bufs (λ byte. read_encoded ua bufs (bit_and byte 0x0F)) (Reads-byte bufs k h) r

  Reads-numeric :
      (ns id : ℕ)
      → ns < 2 ^ 16
      → id < 2 ^ 32
      → Reads bufs (read_node_id ua bufs) (numeric_bytes ua bufs ns id) (new_numeric ns id)
  unfolding read_encoded
  Reads-numeric ns id h j = elim (Bool-cases (ns == 0 && leb id 0xFF)) [
    | inl two ↦
        let zero_ns : ns ≡ 0 = ground arith in
        rw two (rw zero_ns (Reads-encoded 0 _ _ (omega arith) (Reads-two_byte id (ground arith))))
    | inr wide ↦ rw wide (elim (Bool-cases (leb ns 0xFF && leb id 0xFFFF)) [
      | inl four ↦
          rw four (
            Reads-encoded 1 _ _ (omega arith) (Reads-four_byte ns id (ground arith) (ground arith)))
      | inr large ↦ rw large (Reads-encoded 2 _ _ (omega arith) (Reads-wide ns id h j))
    ])
  ]

  -- What `write_node_id` wrote for a node, `read_node_id` reads as its image.
  pub Reads-read_node_id :
      (o : Option NodeId)
      → NodeFits ua o
      → Reads bufs (read_node_id ua bufs) (node_bytes ua bufs o) (node_image ua bufs o)
  unfolding read_encoded node_bytes node_image
  Reads-read_node_id none w = Reads-encoded 0 _ _ (omega arith) (Reads-two_byte 0 (omega arith))
  Reads-read_node_id (some n) w = elim (Bool-cases (namespace n == 0 && int_id n == 0)) [
    | inl null ↦ rw null (Reads-encoded 0 _ _ (omega arith) (Reads-two_byte 0 (omega arith)))
    | inr other ↦ rw other (elim (Bool-cases (is_string (type_of n))) [
      | inl is ↦ rw is (
          Reads-encoded 3 _ _ (omega arith)
            (Reads-string_id (namespace n) (string_id n) (ua.namespace_range n) w))
      | inr isnt ↦
          rw isnt
            (Reads-numeric (namespace n) (int_id n) (ua.namespace_range n) (ua.int_id_range n))
    ])
  ]
