-- ===== src/LogRecord/TraceId/Typed.antt =====
-- The trace id in `Decode` of receiver/opcua/log_record_type.go on bytes of any kind.
use opentelemetry_collector.Common.{
  ℕ, zero, suc, List, ◌∷◌, [], ◌++◌, ◌+◌, length, length-append, All-append, ◌≡◌, refl, ap, arith,
}
use opentelemetry_collector.LogRecord.Hex.{AreBytes, put_little, length-put_little}
use opentelemetry_collector.LogRecord.TraceId.{read_bytes, read_trace_id}
use opentelemetry_collector.LogRecord.Wire.Typed.{Yields-return, Yields-bind}
use opentelemetry_collector.Ua.Buffers.{BufferApi, Yields, TypedReads}

AreBytes-put_little : (n v : ℕ) → AreBytes (put_little n v)
unfolding put_little
AreBytes-put_little zero v = tt
AreBytes-put_little (suc n) v = (omega arith, AreBytes-put_little n _)

-- So many bytes.
abbrev pub BytesOf : ℕ → List ℕ → Type 0
BytesOf n bs = (length bs ≡ n) × AreBytes bs

BytesOf-put_little : (n v : ℕ) → BytesOf n (put_little n v)
BytesOf-put_little n v = (length-put_little n v, AreBytes-put_little n v)

BytesOf-append :
    {m n : ℕ} (xs ys : List ℕ) → BytesOf m xs → BytesOf n ys → BytesOf (m + n) (xs ++ ys)
BytesOf-append xs ys (l, h) (l', h') =
    (omega (arith, l, l', length-append xs ys), All-append _ xs ys h h')

module _ (bufs : BufferApi) (reads : TypedReads bufs) where
  Yields-read_bytes : (count : ℕ) → Yields bufs (BytesOf count) (read_bytes bufs count)
  unfolding read_bytes
  Yields-read_bytes zero = Yields-return bufs [] (refl, tt)
  Yields-read_bytes (suc count) = Yields-bind bufs reads.typed_byte (λ b h.
      Yields-bind bufs (Yields-read_bytes count)
        (λ bs hs. Yields-return bufs (b ∷ bs) (ap suc hs.0, (h, hs.1))))

  pub Yields-read_trace_id : Yields bufs (BytesOf 16) (read_trace_id bufs)
  unfolding read_trace_id
  Yields-read_trace_id = Yields-bind bufs reads.typed_uint32 (λ data1 h1.
      Yields-bind bufs reads.typed_uint16 (λ data2 h2.
        Yields-bind bufs reads.typed_uint16 (λ data3 h3.
          Yields-bind bufs (Yields-read_bytes 8) (λ data4 h4. Yields-return bufs _ (
            BytesOf-append (put_little 4 data1) _ (BytesOf-put_little 4 data1) (
              BytesOf-append (put_little 2 data2) _ (BytesOf-put_little 2 data2)
                (BytesOf-append (put_little 2 data3) data4 (BytesOf-put_little 2 data3) h4)))))))
