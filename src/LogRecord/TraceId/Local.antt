-- ===== src/LogRecord/TraceId/Local.antt =====
-- The trace id in `Decode` of receiver/opcua/log_record_type.go where the bytes are cut short.
use opentelemetry_collector.Common.{ℕ, zero, suc}
use opentelemetry_collector.LogRecord.TraceId.{read_bytes, read_trace_id}
use opentelemetry_collector.LogRecord.Wire.Local.{Local-return, Local-bind}
use opentelemetry_collector.Ua.Buffers.{BufferApi, Local, LocalReads}

module _ (bufs : BufferApi) (reads : LocalReads bufs) where
  Local-read_bytes : (count : ℕ) → Local bufs (read_bytes bufs count)
  unfolding read_bytes
  Local-read_bytes zero = Local-return bufs _
  Local-read_bytes (suc count) =
      Local-bind bufs reads.local_byte
        (λ b. Local-bind bufs (Local-read_bytes count) (λ bs. Local-return bufs _))

  pub Local-read_trace_id : Local bufs (read_trace_id bufs)
  unfolding read_trace_id
  Local-read_trace_id = Local-bind bufs reads.local_uint32 (λ data1.
      Local-bind bufs reads.local_uint16 (λ data2.
        Local-bind bufs reads.local_uint16
          (λ data3. Local-bind bufs (Local-read_bytes 8) (λ data4. Local-return bufs _))))
