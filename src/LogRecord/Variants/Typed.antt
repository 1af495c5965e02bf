-- ===== src/LogRecord/Variants/Typed.antt =====
-- `readVariantValue` of receiver/opcua/log_record_type.go on bytes of any kind.
use opentelemetry_collector.Common.{ℕ, ◌==◌, bit_and, not, All}
use opentelemetry_collector.LogRecord.Variants.{as_value, read_typed, read_variant_value}
use opentelemetry_collector.LogRecord.Wire.Typed.{Yields-return, Yields-bind, Yields-if}
use opentelemetry_collector.Ua.Buffers.{
  BufferApi, Yields, TypedReads, IsByte, IsUint16, IsUint32, Is64,
}
use opentelemetry_collector.Value.{
  Value, nil, text, bool, int, int8, int16, int32, int64, uint8, uint16, uint32, uint64, float32,
  float64, time, slice, dict, other,
}

-- A nil, a text, or a bool or number within the range of its type: what a variant is read as.
abbrev pub IsScalar : Value → Type 0
IsScalar nil = Unit
IsScalar (text s) = All IsByte s
IsScalar (bool b) = Unit
IsScalar (int n) = Is64 n
IsScalar (int8 n) = IsByte n
IsScalar (int16 n) = IsUint16 n
IsScalar (int32 n) = IsUint32 n
IsScalar (int64 n) = Is64 n
IsScalar (uint8 n) = IsByte n
IsScalar (uint16 n) = IsUint16 n
IsScalar (uint32 n) = IsUint32 n
IsScalar (uint64 n) = Is64 n
IsScalar (float32 n) = IsUint32 n
IsScalar (float64 n) = Is64 n
IsScalar (time t) = ⊥
IsScalar (slice vs) = ⊥
IsScalar (dict m) = ⊥
IsScalar (other n) = ⊥

module _ (bufs : BufferApi) (reads : TypedReads bufs) where
  open bufs use {Buffer}

  Yields-as_value :
      {A : Type 0} {P : A → Type 0} {read : Buffer → A × Buffer} (wrap : A → Value)
      → ((v : A) → P v → IsScalar (wrap v))
      → Yields bufs P read
      → Yields bufs IsScalar (as_value bufs read wrap)
  Yields-as_value wrap k y = Yields-bind bufs y (λ v h. Yields-return bufs (wrap v) (k v h))

  Yields-read_typed : (type_id : ℕ) → Yields bufs IsScalar (read_typed bufs type_id)
  unfolding read_typed
  Yields-read_typed t =
      Yields-if bufs (t == 1)
        (Yields-as_value (λ v. bool (not (v == 0))) (λ v h. tt) reads.typed_byte)
        (Yields-if bufs (t == 2) (Yields-as_value int8 (λ v h. h) reads.typed_byte) (
          Yields-if bufs (t == 3) (Yields-as_value uint8 (λ v h. h) reads.typed_byte) (
            Yields-if bufs (t == 4) (Yields-as_value int16 (λ v h. h) reads.typed_uint16) (
              Yields-if bufs (t == 5) (Yields-as_value uint16 (λ v h. h) reads.typed_uint16) (
                Yields-if bufs (t == 6) (Yields-as_value int32 (λ v h. h) reads.typed_uint32) (
                  Yields-if bufs (t == 7) (Yields-as_value uint32 (λ v h. h) reads.typed_uint32) (
                    Yields-if bufs (t == 8) (Yields-as_value int64 (λ v h. h) reads.typed_int64) (
                      Yields-if bufs (t == 9) (Yields-as_value uint64 (λ v h. h) reads.typed_int64)
                        (Yields-if bufs (t == 10)
                          (Yields-as_value float32 (λ v h. h) reads.typed_float32)
                          (Yields-if bufs (t == 11)
                            (Yields-as_value float64 (λ v h. h) reads.typed_float64)
                            (Yields-if bufs (t == 12)
                              (Yields-as_value text (λ v h. h) reads.typed_string)
                              (Yields-return bufs nil tt))))))))))))

  pub Yields-read_variant_value : Yields bufs IsScalar (read_variant_value bufs)
  unfolding read_variant_value
  Yields-read_variant_value =
      Yields-bind bufs reads.typed_byte (λ b h. Yields-read_typed (bit_and b 0x3F))
