-- ===== src/LogRecord/TraceId.antt =====
-- The 16 trace id bytes in `Decode` and `Encode` of receiver/opcua/log_record_type.go: a GUID of a
-- uint32, two uint16 and eight bytes, each integer little-endian.
pub mod Local
pub mod Typed
use opentelemetry_collector.Common.{
  ℕ, zero, suc, ◌+◌, ◌^◌, ◌≤◌, ◌<◌, ◌≡◌, List, [], ◌∷◌, ◌++◌, length, take, drop, All-take,
  All-drop, length-drop, length-take_of_le, take-append-drop, drop-drop, take-of_length_le, arith,
}
use mathlib.Core.Path.{subst}
use native.Mathlib.Nat.{pow-suc}
use opentelemetry_collector.Ua.Buffers.{BufferApi}
use opentelemetry_collector.LogRecord.Hex.{put_little, get_little, AreBytes, put_little-get_little}
use opentelemetry_collector.LogRecord.Wire.{
  State, ◌>>=◌, ◌>>◌, return, effect, Reads, Writes, Reads-return, Reads-map, Reads-bind,
  Writes-return, Writes-then, Reads-byte, Reads-uint16, Reads-uint32, Writes-byte, Writes-uint16,
  Writes-uint32,
}

pub get_little-lt : (bs : List ℕ) → AreBytes bs → get_little bs < 256 ^ length bs
unfolding get_little
get_little-lt [] h = omega arith
get_little-lt (b ∷ bs) (hb, hbs) = rw pow-suc (omega (arith, get_little-lt bs hbs))

-- Bytes taken as an integer and put back.
chunk :
    (n k : ℕ) (bs : List ℕ)
    → k + n ≤ length bs
    → AreBytes bs
    → (put_little n (get_little (take n (drop k bs))) ≡ take n (drop k bs))
      × (get_little (take n (drop k bs)) < 256 ^ n)
chunk n k bs h w =
    let part = take n (drop k bs) in
    let are = All-take (λ b. b < 256) n (drop k bs) (All-drop (λ b. b < 256) k bs w) in
    let e : length part ≡ n = length-take_of_le n (drop k bs) (omega (arith, length-drop k bs)) in
    (rw e at (put_little-get_little part are), rw e at (get_little-lt part are))

reassemble :
    (bs : List ℕ)
    → length bs ≡ 16
    → take 4 bs ++ (take 2 (drop 4 bs) ++ (take 2 (drop 6 bs) ++ take 8 (drop 8 bs))) ≡ bs
reassemble bs h =
    rw
      (
        take-of_length_le 8 (drop 8 bs) (omega (arith, h, length-drop 8 bs)),
        ← drop-drop 6 2 bs,
        take-append-drop 2 (drop 6 bs),
        ← drop-drop 4 2 bs,
        take-append-drop 2 (drop 4 bs),
      )
      (take-append-drop 4 bs)

module _ (bufs : BufferApi) where
  open bufs use {
    Buffer, read_byte, read_uint16, read_uint32, write_byte, write_uint16, write_uint32,
    uint16_bytes, uint32_bytes,
  }

  -- `count` calls of `ReadByte`, in order.
  read_bytes : ℕ → State Buffer (List ℕ)
  read_bytes zero = return []
  read_bytes (suc count) = do b ← read_byte; bs ← read_bytes count; return (b ∷ bs)

  unfoldable pub read_trace_id : State Buffer (List ℕ)
  unfolding read_bytes
  read_trace_id = do
    data1 ← read_uint32
    data2 ← read_uint16
    data3 ← read_uint16
    data4 ← read_bytes 8
    return (put_little 4 data1 ++ (put_little 2 data2 ++ (put_little 2 data3 ++ data4)))

  write_bytes : List ℕ → State Buffer (Unit {0})
  write_bytes [] = return tt
  write_bytes (b ∷ bs) = do effect write_byte b; write_bytes bs

  unfoldable pub write_trace_id : List ℕ → State Buffer (Unit {0})
  unfolding write_bytes
  write_trace_id bs = do
    effect write_uint32 (get_little (take 4 bs))
    effect write_uint16 (get_little (take 2 (drop 4 bs)))
    effect write_uint16 (get_little (take 2 (drop 6 bs)))
    write_bytes (take 8 (drop 8 bs))

  unfoldable pub trace_id_encoding : List ℕ → List ℕ
  trace_id_encoding bs =
      uint32_bytes (get_little (take 4 bs))
      ++ (uint16_bytes (get_little (take 2 (drop 4 bs)))
          ++ (uint16_bytes (get_little (take 2 (drop 6 bs))) ++ take 8 (drop 8 bs)))

  Writes-write_bytes : (bs : List ℕ) → Writes bufs (write_bytes bs) bs
  unfolding write_bytes
  Writes-write_bytes [] = Writes-return bufs tt
  Writes-write_bytes (b ∷ bs) = Writes-then bufs (Writes-byte bufs b) (Writes-write_bytes bs)

  pub Writes-write_trace_id : (bs : List ℕ) → Writes bufs (write_trace_id bs) (trace_id_encoding bs)
  unfolding write_trace_id trace_id_encoding
  Writes-write_trace_id bs = Writes-then bufs (Writes-uint32 bufs _) (
      Writes-then bufs (Writes-uint16 bufs _)
        (Writes-then bufs (Writes-uint16 bufs _) (Writes-write_bytes _)))

  Reads-read_bytes : (bs : List ℕ) → AreBytes bs → Reads bufs (read_bytes (length bs)) bs bs
  unfolding read_bytes
  Reads-read_bytes [] h = Reads-return bufs []
  Reads-read_bytes (b ∷ bs) h =
      Reads-bind bufs _ (Reads-byte bufs b h.0)
        (Reads-map bufs (λ (l : List ℕ). b ∷ l) (Reads-read_bytes bs h.1))

  Reads-tail :
      (bs : List ℕ)
      → length bs ≡ 16
      → AreBytes bs
      → Reads bufs (read_bytes 8) (take 8 (drop 8 bs)) (take 8 (drop 8 bs))
  Reads-tail bs h w =
      let e : length (take 8 (drop 8 bs)) ≡ 8 =
        length-take_of_le 8 (drop 8 bs) (omega (arith, h, length-drop 8 bs)) in
      rw e at (Reads-read_bytes (take 8 (drop 8 bs)) (All-take _ 8 _ (All-drop _ 8 bs w)))

  pub Reads-read_trace_id :
      (bs : List ℕ)
      → length bs ≡ 16
      → AreBytes bs
      → Reads bufs read_trace_id (trace_id_encoding bs) bs
  unfolding read_trace_id trace_id_encoding
  Reads-read_trace_id bs h w =
      let (e1, r1) = chunk 4 0 bs (omega (arith, h)) w in
      let (e2, r2) = chunk 2 4 bs (omega (arith, h)) w in
      let (e3, r3) = chunk 2 6 bs (omega (arith, h)) w in
      let tail = take 8 (drop 8 bs) in
      subst (Reads bufs read_trace_id (trace_id_encoding bs)) (rw (e1, e2, e3) (reassemble bs h)) (
        Reads-bind bufs _ (Reads-uint32 bufs _ r1) (
          Reads-bind bufs _ (Reads-uint16 bufs _ r2)
            (Reads-bind bufs _ (Reads-uint16 bufs _ r3) (Reads-map bufs _ (Reads-tail bs h w)))))
