-- ===== src/LogRecord/Variants.antt =====
-- `readVariantValue` and `writeVariantValue` of receiver/opcua/log_record_type.go.
pub mod Local
pub mod Typed
pub mod Laws
use opentelemetry_collector.Common.{
  ℕ, ◌%◌, ◌^◌, ◌<◌, Bool, true, false, not, List, [], ◌∷◌, bit_and, ◌==◌, if◌then◌else◌,
}
use opentelemetry_collector.Value.{
  Value, nil, text, bool, int, int8, int16, int32, int64, uint8, uint16, uint32, uint64, float32,
  float64,
}
use opentelemetry_collector.Ua.Buffers.{BufferApi, IsUint32, Is64, IsWireText}
use opentelemetry_collector.LogRecord.Wire.{State, ◌>>=◌, ◌>>◌, return, effect}

module _ (bufs : BufferApi) where
  open bufs use {
    Buffer, read_byte, read_uint16, read_uint32, read_int64, read_float32, read_float64,
    read_string, write_byte, write_uint32, write_int64, write_float64, write_string, uint32_bytes,
    int64_bytes, float64_bytes, string_bytes,
  }

  -- A read whose result is one of the types behind `interface{}`. Casts keep the bit pattern.
  abbrev as_value : {A : Type 0} → (Buffer → A × Buffer) → (A → Value) → State Buffer Value
  as_value read wrap = do v ← read; return (wrap v)

  -- The switch on the type of a variant.
  read_typed : ℕ → State Buffer Value
  read_typed type_id =
      if type_id == 1
      then as_value read_byte (λ v. bool (not (v == 0)))
      else if type_id == 2
      then as_value read_byte int8
      else if type_id == 3
      then as_value read_byte uint8
      else if type_id == 4
      then as_value read_uint16 int16
      else if type_id == 5
      then as_value read_uint16 uint16
      else if type_id == 6
      then as_value read_uint32 int32
      else if type_id == 7
      then as_value read_uint32 uint32
      else if type_id == 8
      then as_value read_int64 int64
      else if type_id == 9
      then as_value read_int64 uint64
      else if type_id == 10
      then as_value read_float32 float32
      else if type_id == 11
      then as_value read_float64 float64
      else if type_id == 12
      then as_value read_string text
      else return nil

  -- `readVariantValue`
  unfoldable pub read_variant_value : State Buffer Value
  unfolding read_typed
  read_variant_value = do type_byte ← read_byte; read_typed (bit_and type_byte 0x3F)

  -- `writeVariantValue`
  unfoldable pub write_variant_value : Value → State Buffer (Unit {0})
  write_variant_value (text v) = do effect write_byte 12; effect write_string v
  write_variant_value (bool true) = do effect write_byte 1; effect write_byte 1
  write_variant_value (bool false) = do effect write_byte 1; effect write_byte 0
  write_variant_value (int v) = do effect write_byte 6; effect write_uint32 (v % 2 ^ 32)
  write_variant_value (int32 v) = do effect write_byte 6; effect write_uint32 v
  write_variant_value (int64 v) = do effect write_byte 8; effect write_int64 v
  write_variant_value (uint32 v) = do effect write_byte 7; effect write_uint32 v
  write_variant_value (float64 v) = do effect write_byte 11; effect write_float64 v
  write_variant_value v = effect write_byte 0

  -- The bytes that stand for a value on the wire.
  unfoldable pub variant_bytes : Value → List ℕ
  variant_bytes (text v) = 12 ∷ string_bytes v
  variant_bytes (bool true) = 1 ∷ 1 ∷ []
  variant_bytes (bool false) = 1 ∷ 0 ∷ []
  variant_bytes (int v) = 6 ∷ uint32_bytes (v % 2 ^ 32)
  variant_bytes (int32 v) = 6 ∷ uint32_bytes v
  variant_bytes (int64 v) = 8 ∷ int64_bytes v
  variant_bytes (uint32 v) = 7 ∷ uint32_bytes v
  variant_bytes (float64 v) = 11 ∷ float64_bytes v
  variant_bytes v = 0 ∷ []

-- The value fits the bytes that are written for it.
abbrev pub FitsWire : Value → Type 0
FitsWire (text v) = IsWireText v
FitsWire (int32 v) = IsUint32 v
FitsWire (int64 v) = Is64 v
FitsWire (uint32 v) = IsUint32 v
FitsWire (float64 v) = Is64 v
FitsWire v = Unit

-- The value that is read back for a value written: an `int` loses what does not fit 32 bits, and
-- the types that `writeVariantValue` does not name become nil.
unfoldable pub variant_image : Value → Value
variant_image (text v) = text v
variant_image (bool v) = bool v
variant_image (int v) = int32 (v % 2 ^ 32)
variant_image (int32 v) = int32 v
variant_image (int64 v) = int64 v
variant_image (uint32 v) = uint32 v
variant_image (float64 v) = float64 v
variant_image v = nil
