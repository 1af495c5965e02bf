-- ===== src/Ua/Buffers.antt =====
-- The binary buffer of gopcua (ua.Buffer), used by receiver/opcua/log_record_type.go: what a
-- `WriteX` appends, the `ReadX` of the same type reads back.
use opentelemetry_collector.Common.{
  ℕ, ◌+◌, ◌^◌, ◌<◌, ◌≡◌, ◌≢◌, ◌⊎◌, List, [], ◌∷◌, ◌++◌, Option, none, length, All, Text,
}

abbrev pub IsByte : ℕ → Type 0
IsByte b = b < 2 ^ 8

abbrev pub IsUint16 : ℕ → Type 0
IsUint16 v = v < 2 ^ 16

abbrev pub IsUint32 : ℕ → Type 0
IsUint32 v = v < 2 ^ 32

-- An int64 and a float64 are their bit patterns.
abbrev pub Is64 : ℕ → Type 0
Is64 v = v < 2 ^ 64

-- The text is made of bytes, and its length fits the Int32 that stands before it.
abbrev pub IsWireText : Text → Type 0
IsWireText s = All IsByte s × (length s < 2 ^ 31)

-- A read of a buffer that is cut short: it fails, or it does what it does where more bytes follow. An
-- error stays.
pub record IsLocal (Buffer E : Type 0) (unread : Buffer → List ℕ) (error : Buffer → Option E)
    {V : Type 0} (m : Buffer → V × Buffer) : Type 0 where
  pub keeps : (b : Buffer) → error b ≢ none → error (m b).1 ≢ none
  pub local :
      (b whole : Buffer) (rest : List ℕ)
      → error b ≡ none
      → error whole ≡ none
      → unread whole ≡ unread b ++ rest
      → (error (m b).1 ≢ none)
        ⊎ (((m b).0 ≡ (m whole).0)
            × (error (m b).1 ≡ none)
            × (error (m whole).1 ≡ none)
            × (unread (m whole).1 ≡ unread (m b).1 ++ rest))

-- `unread` is what is still to be read, and a buffer with no error reads a value off its front.
abbrev pub ReadsBack :
    (Buffer E : Type 0)
    → (Buffer → List ℕ)
    → (Buffer → ℕ)
    → (Buffer → Option E)
    → {V : Type 0} → (V → Type 0)
    → (V → List ℕ)
    → (Buffer → V × Buffer)
    → Type 0
ReadsBack Buffer E unread pos error {V} Fits encoding read =
    (b : Buffer) (v : V) (rest : List ℕ)
    → Fits v
    → error b ≡ none
    → unread b ≡ encoding v ++ rest
    → ((read b).0 ≡ v)
      × (unread (read b).1 ≡ rest)
      × (error (read b).1 ≡ none)
      × (pos (read b).1 ≡ pos b + length (encoding v))

abbrev pub Appends :
    (Buffer : Type 0)
    → (Buffer → List ℕ)
    → {V : Type 0} → (V → List ℕ)
    → (Buffer → V → Buffer)
    → Type 0
Appends Buffer bytes {V} encoding write =
    (b : Buffer) (v : V) → bytes (write b v) ≡ bytes b ++ encoding v

pub record BufferApi : Type 1 where
  pub Buffer : Type 0
  pub Error : Type 0
  pub new_buffer : List ℕ → Buffer
  pub pos : Buffer → ℕ
  pub error : Buffer → Option Error
  pub bytes : Buffer → List ℕ
  pub read_byte : Buffer → ℕ × Buffer
  pub read_uint16 : Buffer → ℕ × Buffer
  pub read_uint32 : Buffer → ℕ × Buffer
  pub read_int64 : Buffer → ℕ × Buffer
  pub read_float32 : Buffer → ℕ × Buffer
  pub read_float64 : Buffer → ℕ × Buffer
  pub read_string : Buffer → Text × Buffer
  pub write_byte : Buffer → ℕ → Buffer
  pub write_uint16 : Buffer → ℕ → Buffer
  pub write_uint32 : Buffer → ℕ → Buffer
  pub write_int64 : Buffer → ℕ → Buffer
  pub write_float64 : Buffer → ℕ → Buffer
  pub write_string : Buffer → Text → Buffer
  -- The OPC UA binary encodings.
  pub uint16_bytes : ℕ → List ℕ
  pub uint32_bytes : ℕ → List ℕ
  pub int64_bytes : ℕ → List ℕ
  pub float64_bytes : ℕ → List ℕ
  pub string_bytes : Text → List ℕ
  -- What is still to be read.
  pub unread : Buffer → List ℕ
  pub unread-new_buffer : (bs : List ℕ) → unread (new_buffer bs) ≡ bs
  pub pos-new_buffer : (bs : List ℕ) → pos (new_buffer bs) ≡ 0
  pub error-new_buffer : (bs : List ℕ) → error (new_buffer bs) ≡ none
  pub bytes-new_buffer : bytes (new_buffer []) ≡ []
  pub reads_byte : ReadsBack Buffer Error unread pos error IsByte (λ v. v ∷ []) read_byte
  pub reads_uint16 : ReadsBack Buffer Error unread pos error IsUint16 uint16_bytes read_uint16
  pub reads_uint32 : ReadsBack Buffer Error unread pos error IsUint32 uint32_bytes read_uint32
  pub reads_int64 : ReadsBack Buffer Error unread pos error Is64 int64_bytes read_int64
  pub reads_float64 : ReadsBack Buffer Error unread pos error Is64 float64_bytes read_float64
  pub reads_string : ReadsBack Buffer Error unread pos error IsWireText string_bytes read_string
  pub writes_byte : Appends Buffer bytes (λ v. v ∷ []) write_byte
  pub writes_uint16 : Appends Buffer bytes uint16_bytes write_uint16
  pub writes_uint32 : Appends Buffer bytes uint32_bytes write_uint32
  pub writes_int64 : Appends Buffer bytes int64_bytes write_int64
  pub writes_float64 : Appends Buffer bytes float64_bytes write_float64
  pub writes_string : Appends Buffer bytes string_bytes write_string

-- A buffer that has no more bytes gives an error, which then stays.
abbrev pub Local : (bufs : BufferApi) {V : Type 0} → (bufs.Buffer → V × bufs.Buffer) → Type 0
Local bufs m = IsLocal (bufs.Buffer) (bufs.Error) (bufs.unread) (bufs.error) m

pub record LocalReads (bufs : BufferApi) : Type 0 where
  pub local_byte : Local bufs (bufs.read_byte)
  pub local_uint16 : Local bufs (bufs.read_uint16)
  pub local_uint32 : Local bufs (bufs.read_uint32)
  pub local_int64 : Local bufs (bufs.read_int64)
  pub local_float32 : Local bufs (bufs.read_float32)
  pub local_float64 : Local bufs (bufs.read_float64)
  pub local_string : Local bufs (bufs.read_string)

-- From a buffer of bytes, the result is one that `P` holds of, and bytes are left.
pub record Yields (bufs : BufferApi) {V : Type 0} (P : V → Type 0)
    (m : bufs.Buffer → V × bufs.Buffer) : Type 0 where
  pub run :
      (b : bufs.Buffer) → All IsByte (bufs.unread b) → P (m b).0 × All IsByte (bufs.unread (m b).1)

-- A read gives a value of its Go type, also where it fails.
pub record TypedReads (bufs : BufferApi) : Type 0 where
  pub typed_byte : Yields bufs IsByte (bufs.read_byte)
  pub typed_uint16 : Yields bufs IsUint16 (bufs.read_uint16)
  pub typed_uint32 : Yields bufs IsUint32 (bufs.read_uint32)
  pub typed_int64 : Yields bufs Is64 (bufs.read_int64)
  pub typed_float32 : Yields bufs IsUint32 (bufs.read_float32)
  pub typed_float64 : Yields bufs Is64 (bufs.read_float64)
  pub typed_string : Yields bufs (All IsByte) (bufs.read_string)
