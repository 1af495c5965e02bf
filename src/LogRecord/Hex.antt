-- ===== src/LogRecord/Hex.antt =====
-- Hexadecimal text: `hex.EncodeToString` and `%016x`, which receiver/opcua/log_record_type.go
-- prints trace identifiers with, and `hex.DecodeString`, which receiver/opcua/transformer.go reads
-- them back with; and the little-endian integers of encoding/binary.
use opentelemetry_collector.Common.{
  ℕ, zero, suc, ◌+◌, ◌-◌, ◌*◌, ◌/◌, ◌%◌, ◌^◌, ◌<◌, ◌≡◌, refl, sym, ap, ◌∙◌, ◌&&◌, List, [], ◌∷◌,
  ◌++◌, Option, none, some, leb, ltb, if◌then◌else◌, length, length-append, All, All-append, Text,
  arith,
}
use mathlib.Core.List.{append_assoc}
use mathlib.Core.Path.{ap₂}
use native.Mathlib.Nat.{pow-suc}

pub hex_digit : ℕ → ℕ
hex_digit n = if ltb n 10 then n + b'0' else n - 10 + b'a'

-- `hex.EncodeToString`
unfoldable pub encode_hex : List ℕ → Text
unfolding hex_digit
encode_hex [] = []
encode_hex (b ∷ bs) = hex_digit (b / 16) ∷ hex_digit (b % 16) ∷ encode_hex bs

-- The low `width` hexadecimal digits of a number, with leading zeros: `%016x` at a uint64 is the
-- case of 16 digits.
unfoldable pub hex_padded : ℕ → ℕ → Text
unfolding hex_digit
hex_padded zero v = []
hex_padded (suc width) v = hex_padded width (v / 16) ++ (hex_digit (v % 16) ∷ [])

from_digit : ℕ → Option ℕ
from_digit c =
    if leb b'0' c && leb c b'9'
    then some (c - b'0')
    else if leb b'a' c && leb c b'f'
    then some (c - b'a' + 10)
    else if leb b'A' c && leb c b'F'
    then some (c - b'A' + 10)
    else none

push_byte : Option ℕ → Option ℕ → Option (List ℕ) → Option (List ℕ)
push_byte (some high) (some low) (some bs) = some ((16 * high + low) ∷ bs)
push_byte _ _ _ = none

-- `hex.DecodeString`; `none` stands for its error.
unfoldable pub decode_hex : Text → Option (List ℕ)
unfolding from_digit push_byte
decode_hex [] = some []
decode_hex (c ∷ []) = none
decode_hex (c ∷ d ∷ s) = push_byte (from_digit c) (from_digit d) (decode_hex s)

-- The `width` low bytes of a number, the highest first.
unfoldable pub big_endian : ℕ → ℕ → List ℕ
big_endian zero v = []
big_endian (suc width) v = big_endian width (v / 256) ++ (v % 256 ∷ [])

-- `binary.LittleEndian.PutUint16`, `PutUint32` and their readers.
unfoldable pub put_little : ℕ → ℕ → List ℕ
put_little zero v = []
put_little (suc width) v = (v % 256) ∷ put_little width (v / 256)

unfoldable pub get_little : List ℕ → ℕ
get_little [] = 0
get_little (b ∷ bs) = b + 256 * get_little bs

abbrev pub AreBytes : List ℕ → Type 0
AreBytes = All (λ b. b < 256)

from_digit-hex_digit : (n : ℕ) → n < 16 → from_digit (hex_digit n) ≡ some n
unfolding from_digit hex_digit
from_digit-hex_digit n h = ground arith

pub decode_hex-encode_hex : (bs : List ℕ) → AreBytes bs → decode_hex (encode_hex bs) ≡ some bs
unfolding decode_hex encode_hex
decode_hex-encode_hex [] h = refl
decode_hex-encode_hex (b ∷ bs) (hb, hbs) =
    rw
      (
        from_digit-hex_digit (b / 16) (omega arith),
        from_digit-hex_digit (b % 16) (omega arith),
        decode_hex-encode_hex bs hbs,
      )
      (ap (λ (x : ℕ). some (x ∷ bs)) (omega arith))

encode_hex-append : (bs cs : List ℕ) → encode_hex (bs ++ cs) ≡ encode_hex bs ++ encode_hex cs
unfolding encode_hex
encode_hex-append [] cs = refl
encode_hex-append (b ∷ bs) cs = rw (encode_hex-append bs cs)

abbrev double : ℕ → ℕ
double zero = zero
double (suc k) = suc (suc (double k))

hex_padded_twice :
    (width v : ℕ)
    → hex_padded (suc (suc width)) v
      ≡ hex_padded width (v / 256) ++ (hex_digit (v / 16 % 16) ∷ hex_digit (v % 16) ∷ [])
unfolding hex_padded
hex_padded_twice width v =
    append_assoc (hex_padded width (v / 16 / 16)) _ _
    ∙ ap (λ (q : ℕ). hex_padded width q ++ (hex_digit (v / 16 % 16) ∷ hex_digit (v % 16) ∷ []))
        (omega arith)

last_digits :
    (v : ℕ) → hex_digit (v / 16 % 16) ∷ hex_digit (v % 16) ∷ [] ≡ encode_hex (v % 256 ∷ [])
unfolding encode_hex
last_digits v = ap₂ (λ (x y : ℕ). hex_digit x ∷ hex_digit y ∷ []) (omega arith) (omega arith)

-- A padded number is the hexadecimal text of its bytes.
pub hex_padded-big_endian : (k v : ℕ) → hex_padded (double k) v ≡ encode_hex (big_endian k v)
hex_padded-big_endian zero v = unfold hex_padded encode_hex big_endian in refl
hex_padded-big_endian (suc k) v =
    hex_padded_twice (double k) v
    ∙ (rw (hex_padded-big_endian k (v / 256), last_digits v))
    ∙ sym (encode_hex-append (big_endian k (v / 256)) (v % 256 ∷ []))
    ∙ unfold big_endian in refl

pub length-big_endian : (k v : ℕ) → length (big_endian k v) ≡ k
unfolding big_endian
length-big_endian zero v = refl
length-big_endian (suc k) v = rw length-append (omega (arith, length-big_endian k (v / 256)))

pub AreBytes-big_endian : (k v : ℕ) → AreBytes (big_endian k v)
unfolding big_endian
AreBytes-big_endian zero v = tt
AreBytes-big_endian (suc k) v =
    All-append (λ b. b < 256) (big_endian k (v / 256)) (v % 256 ∷ [])
      (AreBytes-big_endian k (v / 256)) (omega arith)

pub put_little-get_little :
    (bs : List ℕ) → AreBytes bs → put_little (length bs) (get_little bs) ≡ bs
unfolding put_little get_little
put_little-get_little [] h = refl
put_little-get_little (b ∷ bs) (hb, hbs) =
    ap₂ (λ (x : ℕ) (xs : List ℕ). x ∷ xs) (omega arith)
      (ap (put_little (length bs)) (omega arith) ∙ put_little-get_little bs hbs)

pub length-put_little : (n v : ℕ) → length (put_little n v) ≡ n
unfolding put_little
length-put_little zero v = refl
length-put_little (suc n) v = ap suc (length-put_little n (v / 256))

pub get_little-put_little : (n v : ℕ) → v < 256 ^ n → get_little (put_little n v) ≡ v
unfolding get_little put_little
get_little-put_little zero v h = omega arith
get_little-put_little (suc n) v h =
    let low : v / 256 < 256 ^ n = omega (arith, pow-suc 256 n) in
    omega (arith, get_little-put_little n (v / 256) low)
