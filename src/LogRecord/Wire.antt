-- ===== src/LogRecord/Wire.antt =====
-- Sequences of buffer reads and writes, as receiver/opcua/log_record_type.go makes them on a
-- `*ua.Buffer`: a state monad over the buffer, with what a sequence reads back or appends.
pub mod Local
pub mod Typed
use opentelemetry_collector.Common.{
  ℕ, ◌+◌, ◌≡◌, refl, sym, ap, ◌∙◌, List, [], ◌∷◌, ◌++◌, Text, none, length, length-append, arith,
}
use opentelemetry_collector.Ua.Buffers.{BufferApi, IsByte, IsUint16, IsUint32, Is64, IsWireText}
use mathlib.Core.List.{append-nil, append_assoc}

-- A step over a mutable object `S` with a result of type `A`.
abbrev pub State : Type 0 → Type 0 → Type 0
State S A = S → A × S

-- Shut, so that a proof follows the steps of a sequence as they are written.
infixl 5 ◌>>=◌ ◌>>◌
unfoldable pub ◌>>=◌ : {S A B : Type 0} → (S → A × S) → (A → S → B × S) → S → B × S
◌>>=◌ m f s = f (m s).0 (m s).1

unfoldable pub ◌>>◌ : {S A B : Type 0} → (S → A × S) → (S → B × S) → S → B × S
◌>>◌ m k s = k (m s).1

abbrev pub return : {S A : Type 0} → A → S → A × S
return a s = (a, s)

-- A call that only changes the object.
abbrev pub effect : {S A : Type 0} → (S → A → S) → A → S → Unit {0} × S
effect write a s = (tt, write s a)

module _ (bufs : BufferApi) where
  open bufs use {
    Buffer, unread, error, pos, bytes, read_byte, read_uint16, read_uint32, read_int64,
    read_float64, read_string, write_byte, write_uint16, write_uint32, write_int64, write_float64,
    write_string, uint16_bytes, uint32_bytes, int64_bytes, float64_bytes, string_bytes,
  }

  -- Where `front` is what is unread first, and there is no error, `m` reads it whole, gives `v`,
  -- and leaves the rest, still with no error.
  pub record Reads {V : Type 0} (m : Buffer → V × Buffer) (front : List ℕ) (v : V) : Type 0 where
    pub run :
        (b : Buffer) (rest : List ℕ)
        → error b ≡ none
        → unread b ≡ front ++ rest
        → ((m b).0 ≡ v)
          × (unread (m b).1 ≡ rest)
          × (error (m b).1 ≡ none)
          × (pos (m b).1 ≡ pos b + length front)

  -- `m` appends `tail` to the buffer.
  pub record Writes {V : Type 0} (m : Buffer → V × Buffer) (tail : List ℕ) : Type 0 where
    pub run : (b : Buffer) → bytes (m b).1 ≡ bytes b ++ tail

  pub Reads-return : {V : Type 0} (v : V) → Reads (return v) [] v
  Reads-return v = record { run = λ b rest ok e. (refl, e, ok, omega arith) }

  pub Reads-bind :
      {V W : Type 0} {m : Buffer → V × Buffer} {front next : List ℕ} {v : V} {w : W}
      (f : V → Buffer → W × Buffer)
      → Reads m front v
      → Reads (f v) next w
      → Reads (m >>= f) (front ++ next) w
  unfolding ◌>>=◌
  Reads-bind {m = m} {front = front} {next = next} f r s = record {
    run = λ b rest ok e.
        let (got, left, ok', at) = r.run b (next ++ rest) ok (e ∙ append_assoc front next rest) in
        rw (got, ◌>>=◌)
          (let (got', left', ok'', at') = s.run _ rest ok' left in
            (got', left', ok'', at' ∙ omega (arith, at, length-append front next)));
  }

  pub Reads-map :
      {V W : Type 0} {m : Buffer → V × Buffer} {front : List ℕ} {v : V} (f : V → W)
      → Reads m front v
      → Reads (m >>= λ x. return (f x)) front (f v)
  unfolding ◌>>=◌
  Reads-map f r = record {
    run = λ b rest ok e. let (got, left, ok', at) = r.run b rest ok e in (ap f got, left, ok', at);
  }

  pub Writes-return : {V : Type 0} (v : V) → Writes (return v) []
  Writes-return v = record { run = λ b. sym (append-nil (bytes b)) }

  pub Writes-then :
      {V W : Type 0} {m : Buffer → V × Buffer} {k : Buffer → W × Buffer} {front next : List ℕ}
      → Writes m front
      → Writes k next
      → Writes (m >> k) (front ++ next)
  unfolding ◌>>◌
  Writes-then {m = m} {front = front} {next = next} r s = record {
    run = λ b.
        s.run (m b).1
        ∙ ap (λ (l : List ℕ). l ++ next) (r.run b)
        ∙ append_assoc (bytes b) front next;
  }

  -- The buffer's own reads and writes.
  pub Reads-byte : (v : ℕ) → IsByte v → Reads read_byte (v ∷ []) v
  Reads-byte v h = record { run = λ b rest ok e. bufs.reads_byte b v rest h ok e }

  pub Reads-uint16 : (v : ℕ) → IsUint16 v → Reads read_uint16 (uint16_bytes v) v
  Reads-uint16 v h = record { run = λ b rest ok e. bufs.reads_uint16 b v rest h ok e }

  pub Reads-uint32 : (v : ℕ) → IsUint32 v → Reads read_uint32 (uint32_bytes v) v
  Reads-uint32 v h = record { run = λ b rest ok e. bufs.reads_uint32 b v rest h ok e }

  pub Reads-int64 : (v : ℕ) → Is64 v → Reads read_int64 (int64_bytes v) v
  Reads-int64 v h = record { run = λ b rest ok e. bufs.reads_int64 b v rest h ok e }

  pub Reads-float64 : (v : ℕ) → Is64 v → Reads read_float64 (float64_bytes v) v
  Reads-float64 v h = record { run = λ b rest ok e. bufs.reads_float64 b v rest h ok e }

  pub Reads-string : (s : Text) → IsWireText s → Reads read_string (string_bytes s) s
  Reads-string s h = record { run = λ b rest ok e. bufs.reads_string b s rest h ok e }

  pub Writes-byte : (v : ℕ) → Writes (effect write_byte v) (v ∷ [])
  Writes-byte v = record { run = λ b. bufs.writes_byte b v }

  pub Writes-uint16 : (v : ℕ) → Writes (effect write_uint16 v) (uint16_bytes v)
  Writes-uint16 v = record { run = λ b. bufs.writes_uint16 b v }

  pub Writes-uint32 : (v : ℕ) → Writes (effect write_uint32 v) (uint32_bytes v)
  Writes-uint32 v = record { run = λ b. bufs.writes_uint32 b v }

  pub Writes-int64 : (v : ℕ) → Writes (effect write_int64 v) (int64_bytes v)
  Writes-int64 v = record { run = λ b. bufs.writes_int64 b v }

  pub Writes-float64 : (v : ℕ) → Writes (effect write_float64 v) (float64_bytes v)
  Writes-float64 v = record { run = λ b. bufs.writes_float64 b v }

  pub Writes-string : (s : Text) → Writes (effect write_string s) (string_bytes s)
  Writes-string s = record { run = λ b. bufs.writes_string b s }
