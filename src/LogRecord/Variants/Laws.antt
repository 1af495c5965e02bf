-- ===== src/LogRecord/Variants/Laws.antt =====
-- What `writeVariantValue` of receiver/opcua/log_record_type.go appends, and that
-- `readVariantValue` reads it back.
use opentelemetry_collector.Common.{ℕ, ◌^◌, ◌<◌, true, false, List, ◌∷◌, bit_and, arith}
use opentelemetry_collector.Value.{Value, nil, text, bool, int, int32, int64, uint32, float64}
use opentelemetry_collector.Ua.Buffers.{BufferApi}
use opentelemetry_collector.LogRecord.Wire.{
  Reads, Writes, Reads-return, Reads-map, Reads-bind, Writes-then, Reads-byte, Reads-uint32,
  Reads-int64, Reads-float64, Reads-string, Writes-byte, Writes-uint32, Writes-int64,
  Writes-float64, Writes-string,
}
use opentelemetry_collector.LogRecord.Variants.{
  read_typed, read_variant_value, write_variant_value, variant_bytes, FitsWire, variant_image,
}

module _ (bufs : BufferApi) where
  pub Writes-write_variant_value :
      (v : Value) → Writes bufs (write_variant_value bufs v) (variant_bytes bufs v)
  unfolding write_variant_value variant_bytes
  Writes-write_variant_value (text v) =
      Writes-then bufs (Writes-byte bufs 12) (Writes-string bufs v)
  Writes-write_variant_value (bool true) =
      Writes-then bufs (Writes-byte bufs 1) (Writes-byte bufs 1)
  Writes-write_variant_value (bool false) =
      Writes-then bufs (Writes-byte bufs 1) (Writes-byte bufs 0)
  Writes-write_variant_value (int v) = Writes-then bufs (Writes-byte bufs 6) (Writes-uint32 bufs _)
  Writes-write_variant_value (int32 v) =
      Writes-then bufs (Writes-byte bufs 6) (Writes-uint32 bufs v)
  Writes-write_variant_value (int64 v) = Writes-then bufs (Writes-byte bufs 8) (Writes-int64 bufs v)
  Writes-write_variant_value (uint32 v) =
      Writes-then bufs (Writes-byte bufs 7) (Writes-uint32 bufs v)
  Writes-write_variant_value (float64 v) =
      Writes-then bufs (Writes-byte bufs 11) (Writes-float64 bufs v)
  Writes-write_variant_value v = Writes-byte bufs 0

  -- A variant is read by the case that its first byte selects.
  Reads-typed :
      (k : ℕ) (front : List ℕ) (v : Value)
      → k < 2 ^ 8
      → Reads bufs (read_typed bufs (bit_and k 0x3F)) front v
      → Reads bufs (read_variant_value bufs) (k ∷ front) v
  unfolding read_variant_value
  Reads-typed k front v h r =
      Reads-bind bufs (λ type_byte. read_typed bufs (bit_and type_byte 0x3F)) (Reads-byte bufs k h)
        r

  -- What `write_variant_value` wrote for a value, `read_variant_value` reads as its image.
  pub Reads-read_variant_value :
      (v : Value)
      → FitsWire v
      → Reads bufs (read_variant_value bufs) (variant_bytes bufs v) (variant_image v)
  unfolding read_typed variant_bytes variant_image
  Reads-read_variant_value (text v) h =
      Reads-typed 12 _ _ (omega arith) (Reads-map bufs text (Reads-string bufs v h))
  Reads-read_variant_value (bool true) h =
      Reads-typed 1 _ _ (omega arith) (Reads-map bufs _ (Reads-byte bufs 1 (omega arith)))
  Reads-read_variant_value (bool false) h =
      Reads-typed 1 _ _ (omega arith) (Reads-map bufs _ (Reads-byte bufs 0 (omega arith)))
  Reads-read_variant_value (int v) h =
      Reads-typed 6 _ _ (omega arith) (Reads-map bufs int32 (Reads-uint32 bufs _ (omega arith)))
  Reads-read_variant_value (int32 v) h =
      Reads-typed 6 _ _ (omega arith) (Reads-map bufs int32 (Reads-uint32 bufs v h))
  Reads-read_variant_value (int64 v) h =
      Reads-typed 8 _ _ (omega arith) (Reads-map bufs int64 (Reads-int64 bufs v h))
  Reads-read_variant_value (uint32 v) h =
      Reads-typed 7 _ _ (omega arith) (Reads-map bufs uint32 (Reads-uint32 bufs v h))
  Reads-read_variant_value (float64 v) h =
      Reads-typed 11 _ _ (omega arith) (Reads-map bufs float64 (Reads-float64 bufs v h))
  Reads-read_variant_value v h = Reads-typed 0 _ _ (omega arith) (Reads-return bufs nil)
