-- ===== src/Ua/Concrete.antt =====
-- A concrete library of node identifiers and buffers that has the laws of the interfaces.
pub mod Local
pub mod Typed
use opentelemetry_collector.Common.{
  ℕ, zero, suc, ◌+◌, ◌%◌, ◌^◌, ◌<◌, ◌≡◌, refl, sym, ap, ◌∙◌, false, List, [], ◌∷◌, ◌++◌, Option,
  none, some, length, length-append, Text, arith,
}
use mathlib.Core.List.{append_assoc}
use opentelemetry_collector.LogRecord.Hex.{
  put_little, get_little, length-put_little, get_little-put_little,
}
use opentelemetry_collector.Ua.Buffers.{BufferApi, IsWireText}
use opentelemetry_collector.Ua.NodeIds.{
  NodeIdApi, NodeIdType, numeric, string, byte_string, is_numeric,
}

-- Identifiers are cut to the width of their fields.
pub data Node : Type 0 where
  number : ℕ → ℕ → Node
  name : ℕ → Text → Node
  opaque : ℕ → Node

abbrev pub node_namespace : Node → ℕ
node_namespace (number ns id) = ns % 2 ^ 16
node_namespace (name ns s) = ns % 2 ^ 16
node_namespace (opaque ns) = ns % 2 ^ 16

abbrev pub node_type : Node → NodeIdType
node_type (number ns id) = numeric
node_type (name ns s) = string
node_type (opaque ns) = byte_string

abbrev pub node_int_id : Node → ℕ
node_int_id (number ns id) = id % 2 ^ 32
node_int_id (name ns s) = 0
node_int_id (opaque ns) = 0

abbrev pub node_string_id : Node → Text
node_string_id (number ns id) = []
node_string_id (name ns s) = s
node_string_id (opaque ns) = []

pub namespace_range : (n : Node) → node_namespace n < 2 ^ 16
namespace_range (number ns id) = omega arith
namespace_range (name ns s) = omega arith
namespace_range (opaque ns) = omega arith

pub int_id_range : (n : Node) → node_int_id n < 2 ^ 32
int_id_range (number ns id) = omega arith
int_id_range (name ns s) = omega arith
int_id_range (opaque ns) = omega arith

pub int_id_other : (n : Node) → is_numeric (node_type n) ≡ false → node_int_id n ≡ 0
int_id_other (number ns id) h = cc
int_id_other (name ns s) h = refl
int_id_other (opaque ns) h = refl

pub cut16 : (ns : ℕ) → ns < 2 ^ 16 → ns % 2 ^ 16 ≡ ns
cut16 ns h = omega arith

pub cut32 : (id : ℕ) → id < 2 ^ 32 → id % 2 ^ 32 ≡ id
cut32 id h = omega arith

abbrev pub node_ids : NodeIdApi
node_ids = record {
  NodeId = Node;
  new_numeric = number;
  new_string = name;
  namespace = node_namespace;
  type_of = node_type;
  int_id = node_int_id;
  string_id = node_string_id;
  print = node_string_id;
  parse = λ s. none;
  numeric_type = λ ns id. refl;
  numeric_namespace = λ ns id h. cut16 ns h;
  numeric_int_id = λ ns id h. cut32 id h;
  string_type = λ ns s. refl;
  string_namespace = λ ns s h. cut16 ns h;
  string_string_id = λ ns s. refl;
  namespace_range = namespace_range;
  int_id_range = int_id_range;
  int_id_other = int_id_other;
}

-- The bytes that are still to be read, how many have been read, and whether a read failed.
pub record MemoryBuffer : Type 0 where
  pub rest : List ℕ
  pub at : ℕ
  pub failed : Option (Unit {0})

take_exact : ℕ → List ℕ → Option (List ℕ × List ℕ)
take_exact zero xs = some ([], xs)
take_exact (suc n) [] = none
take_exact (suc n) (x ∷ xs) = elim (take_exact n xs) [
  | none ↦ none
  | some (front, rest) ↦ some (x ∷ front, rest)
]

give : {V : Type 0} → ℕ → (List ℕ → V) → MemoryBuffer → Option (List ℕ × List ℕ) → V × MemoryBuffer
give n from b none = (from [], record b { failed = some tt })
give n from b (some (front, rest)) = (from front, record b { rest = rest; at = b.at + n })

-- After an error nothing is read.
front_of : ℕ → List ℕ → Option (Unit {0}) → Option (List ℕ × List ℕ)
front_of n bs none = take_exact n bs
front_of n bs (some e) = none

unfoldable pub read_with : {V : Type 0} → ℕ → (List ℕ → V) → MemoryBuffer → V × MemoryBuffer
unfolding take_exact give front_of
read_with n from b = give n from b (front_of n b.rest b.failed)

unfoldable pub read_text : MemoryBuffer → Text × MemoryBuffer
read_text b = let (n, b') = read_with 4 get_little b in read_with n (λ s. s) b'

abbrev pub write_with : {V : Type 0} → (V → List ℕ) → MemoryBuffer → V → MemoryBuffer
write_with to b v = record b { rest = b.rest ++ to v }

abbrev pub text_bytes : Text → List ℕ
text_bytes s = put_little 4 (length s) ++ s

take_exact-append : (xs ys : List ℕ) → take_exact (length xs) (xs ++ ys) ≡ some (xs, ys)
unfolding take_exact
take_exact-append [] ys = refl
take_exact-append (x ∷ xs) ys = rw (take_exact-append xs ys, take_exact)

-- A read of as many bytes as were put in front gives back what they stand for.
pub read_with-append :
    {V : Type 0} (from : List ℕ → V) (xs ys : List ℕ) (b : MemoryBuffer)
    → b.failed ≡ none
    → b.rest ≡ xs ++ ys
    → read_with (length xs) from b ≡ (from xs, record b { rest = ys; at = b.at + length xs })
unfolding read_with
read_with-append from xs ys b ok e =
    ap (give (length xs) from b) (
      ap (front_of (length xs) b.rest) ok ∙ ap (take_exact (length xs)) e ∙ take_exact-append xs ys)

pub reads_little :
    (n : ℕ) (b : MemoryBuffer) (v : ℕ) (rest : List ℕ)
    → v < 256 ^ n
    → b.failed ≡ none
    → b.rest ≡ put_little n v ++ rest
    → ((read_with n get_little b).0 ≡ v)
      × ((read_with n get_little b).1.rest ≡ rest)
      × ((read_with n get_little b).1.failed ≡ none)
      × ((read_with n get_little b).1.at ≡ b.at + length (put_little n v))
reads_little n b v rest h ok e =
    let r =
      rw (length-put_little n v) at (read_with-append get_little (put_little n v) rest b ok e) in
    rw r (
      get_little-put_little n v h,
      refl,
      ok,
      ap (λ (k : ℕ). b.at + k) (sym (length-put_little n v)),
    )

pub reads_text :
    (b : MemoryBuffer) (s : Text) (rest : List ℕ)
    → IsWireText s
    → b.failed ≡ none
    → b.rest ≡ text_bytes s ++ rest
    → ((read_text b).0 ≡ s)
      × ((read_text b).1.rest ≡ rest)
      × ((read_text b).1.failed ≡ none)
      × ((read_text b).1.at ≡ b.at + length (text_bytes s))
unfolding read_text
reads_text b s rest w ok e =
    let n = length s in
    let (got, left, ok', at) =
      reads_little 4 b n (s ++ rest) (omega (arith, w.1)) ok
        (e ∙ append_assoc (put_little 4 n) s rest) in
    let r = read_with-append (λ (t : Text). t) s rest (read_with 4 get_little b).1 ok' left in
    rw (got, r) (refl, refl, ok', rw (at, length-append (put_little 4 n) s) (omega arith))

pub reads_byte :
    (b : MemoryBuffer) (v : ℕ) (rest : List ℕ)
    → v < 2 ^ 8
    → b.failed ≡ none
    → b.rest ≡ v ∷ rest
    → ((read_with 1 get_little b).0 ≡ v)
      × ((read_with 1 get_little b).1.rest ≡ rest)
      × ((read_with 1 get_little b).1.failed ≡ none)
      × ((read_with 1 get_little b).1.at ≡ b.at + 1)
unfolding get_little
reads_byte b v rest h ok e =
    rw (read_with-append get_little (v ∷ []) rest b ok e) (omega arith, refl, ok, refl)

abbrev pub buffers : BufferApi
buffers = record {
  Buffer = MemoryBuffer;
  Error = Unit {0};
  new_buffer = λ bs. record { rest = bs; at = 0; failed = none };
  pos = λ b. b.at;
  error = λ b. b.failed;
  bytes = λ b. b.rest;
  read_byte = read_with 1 get_little;
  read_uint16 = read_with 2 get_little;
  read_uint32 = read_with 4 get_little;
  read_int64 = read_with 8 get_little;
  read_float32 = read_with 4 get_little;
  read_float64 = read_with 8 get_little;
  read_string = read_text;
  write_byte = write_with (λ v. v ∷ []);
  write_uint16 = write_with (put_little 2);
  write_uint32 = write_with (put_little 4);
  write_int64 = write_with (put_little 8);
  write_float64 = write_with (put_little 8);
  write_string = write_with text_bytes;
  uint16_bytes = put_little 2;
  uint32_bytes = put_little 4;
  int64_bytes = put_little 8;
  float64_bytes = put_little 8;
  string_bytes = text_bytes;
  unread = λ b. b.rest;
  unread-new_buffer = λ bs. refl;
  pos-new_buffer = λ bs. refl;
  error-new_buffer = λ bs. refl;
  bytes-new_buffer = refl;
  reads_byte = reads_byte;
  reads_uint16 = reads_little 2;
  reads_uint32 = reads_little 4;
  reads_int64 = reads_little 8;
  reads_float64 = reads_little 8;
  reads_string = reads_text;
  writes_byte = λ b v. refl;
  writes_uint16 = λ b v. refl;
  writes_uint32 = λ b v. refl;
  writes_int64 = λ b v. refl;
  writes_float64 = λ b v. refl;
  writes_string = λ b v. refl;
}
