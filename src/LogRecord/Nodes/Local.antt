-- ===== src/LogRecord/Nodes/Local.antt =====
-- `readNodeIDFromBuffer` of receiver/opcua/log_record_type.go where the bytes are cut short.
use opentelemetry_collector.Common.{ℕ, ◌==◌, bit_and}
use opentelemetry_collector.LogRecord.Nodes.{
  read_two_byte, read_four_byte, read_numeric, read_string_id, read_encoded, read_node_id,
}
use opentelemetry_collector.LogRecord.Wire.Local.{Local-return, Local-bind, Local-if}
use opentelemetry_collector.Ua.Buffers.{BufferApi, Local, LocalReads}
use opentelemetry_collector.Ua.NodeIds.{NodeIdApi}

module _ (ua : NodeIdApi) (bufs : BufferApi) (reads : LocalReads bufs) where
  Local-read_encoded : (encoding_type : ℕ) → Local bufs (read_encoded ua bufs encoding_type)
  unfolding read_encoded read_two_byte read_four_byte read_numeric read_string_id
  Local-read_encoded t =
      Local-if bufs (t == 0x00) (Local-bind bufs reads.local_byte (λ id. Local-return bufs _)) (
        Local-if bufs (t == 0x01)
          (Local-bind bufs reads.local_byte
            (λ ns. Local-bind bufs reads.local_uint16 (λ id. Local-return bufs _)))
          (Local-if bufs (t == 0x02)
            (Local-bind bufs reads.local_uint16
              (λ ns. Local-bind bufs reads.local_uint32 (λ id. Local-return bufs _)))
            (Local-if bufs (t == 0x03)
              (Local-bind bufs reads.local_uint16
                (λ ns. Local-bind bufs reads.local_string (λ s. Local-return bufs _)))
              (Local-return bufs _))))

  pub Local-read_node_id : Local bufs (read_node_id ua bufs)
  unfolding read_node_id
  Local-read_node_id = Local-bind bufs reads.local_byte (λ b. Local-read_encoded (bit_and b 0x0F))
