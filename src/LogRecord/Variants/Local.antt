-- ===== src/LogRecord/Variants/Local.antt =====
-- `readVariantValue` of receiver/opcua/log_record_type.go where the bytes are cut short.
use opentelemetry_collector.Common.{ℕ, ◌==◌, bit_and}
use opentelemetry_collector.LogRecord.Variants.{as_value, read_typed, read_variant_value}
use opentelemetry_collector.LogRecord.Wire.Local.{Local-return, Local-bind, Local-if}
use opentelemetry_collector.Ua.Buffers.{BufferApi, Local, LocalReads}
use opentelemetry_collector.Value.{Value}

module _ (bufs : BufferApi) (reads : LocalReads bufs) where
  open bufs use {Buffer}

  Local-as_value :
      {A : Type 0} {read : Buffer → A × Buffer} (wrap : A → Value)
      → Local bufs read
      → Local bufs (as_value bufs read wrap)
  Local-as_value wrap l = Local-bind bufs l (λ v. Local-return bufs _)

  Local-read_typed : (type_id : ℕ) → Local bufs (read_typed bufs type_id)
  unfolding read_typed
  Local-read_typed t = Local-if bufs (t == 1) (Local-as_value _ reads.local_byte) (
      Local-if bufs (t == 2) (Local-as_value _ reads.local_byte) (
        Local-if bufs (t == 3) (Local-as_value _ reads.local_byte) (
          Local-if bufs (t == 4) (Local-as_value _ reads.local_uint16) (
            Local-if bufs (t == 5) (Local-as_value _ reads.local_uint16) (
              Local-if bufs (t == 6) (Local-as_value _ reads.local_uint32) (
                Local-if bufs (t == 7) (Local-as_value _ reads.local_uint32) (
                  Local-if bufs (t == 8) (Local-as_value _ reads.local_int64) (
                    Local-if bufs (t == 9) (Local-as_value _ reads.local_int64) (
                      Local-if bufs (t == 10) (Local-as_value _ reads.local_float32) (
                        Local-if bufs (t == 11) (Local-as_value _ reads.local_float64) (
                          Local-if bufs (t == 12) (Local-as_value _ reads.local_string)
                            (Local-return bufs _))))))))))))

  pub Local-read_variant_value : Local bufs (read_variant_value bufs)
  unfolding read_variant_value
  Local-read_variant_value =
      Local-bind bufs reads.local_byte (λ b. Local-read_typed (bit_and b 0x3F))
