-- ===== src/LogRecord/Nodes/Typed.antt =====
-- `readNodeIDFromBuffer` of receiver/opcua/log_record_type.go on bytes of any kind.
use opentelemetry_collector.Common.{ℕ, ◌==◌, bit_and}
use opentelemetry_collector.LogRecord.Nodes.{
  read_two_byte, read_four_byte, read_numeric, read_string_id, read_encoded, read_node_id,
}
use opentelemetry_collector.LogRecord.Wire.Typed.{Yields-return, Yields-bind, Yields-if}
use opentelemetry_collector.Ua.Buffers.{BufferApi, Yields, TypedReads}
use opentelemetry_collector.Ua.NodeIds.{NodeIdApi}

module _ (ua : NodeIdApi) (bufs : BufferApi) (reads : TypedReads bufs) where
  open ua use {NodeId, new_numeric, new_string}

  abbrev pub AnyNode : NodeId → Type 0
  AnyNode n = Unit

  Yields-read_encoded : (e : ℕ) → Yields bufs AnyNode (read_encoded ua bufs e)
  unfolding read_encoded read_two_byte read_four_byte read_numeric read_string_id
  Yields-read_encoded e =
      Yields-if bufs (e == 0x00)
        (Yields-bind bufs reads.typed_byte (λ id h. Yields-return bufs _ tt))
        (Yields-if bufs (e == 0x01)
          (Yields-bind bufs reads.typed_byte
            (λ ns h. Yields-bind bufs reads.typed_uint16 (λ id h. Yields-return bufs _ tt)))
          (Yields-if bufs (e == 0x02)
            (Yields-bind bufs reads.typed_uint16
              (λ ns h. Yields-bind bufs reads.typed_uint32 (λ id h. Yields-return bufs _ tt)))
            (Yields-if bufs (e == 0x03)
              (Yields-bind bufs reads.typed_uint16
                (λ ns h. Yields-bind bufs reads.typed_string (λ s h. Yields-return bufs _ tt)))
              (Yields-return bufs _ tt))))

  pub Yields-read_node_id : Yields bufs AnyNode (read_node_id ua bufs)
  unfolding read_node_id
  Yields-read_node_id =
      Yields-bind bufs reads.typed_byte (λ b h. Yields-read_encoded (bit_and b 0x0F))
