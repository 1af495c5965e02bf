-- ===== src/Records/Components.antt =====
-- `nodeIDComponents` of receiver/opcua/get_records.go at the source node that `Decode` of
-- receiver/opcua/log_record_type.go reads back.
use opentelemetry_collector.Common.{
  ℕ, ◌^◌, ◌<◌, ◌≡◌, refl, sym, ◌∙◌, inl, inr, true, false, Bool-cases, ◌&&◌, ◌||◌, Option, none,
  some, ◌==◌, if◌then◌else◌, Text, lit, arith,
}
use mathlib.Core.Path.{ap₂}
use opentelemetry_collector.Common.{[]}
use mathlib.Core.List.{append-nil}
use opentelemetry_collector.LogRecord.Nodes.{
  NodeFits, node_bytes, node_image, is_string, read_node_id, write_node_id,
}
use opentelemetry_collector.LogRecord.Nodes.Laws.{Writes-write_node_id, Reads-read_node_id}
use opentelemetry_collector.Records.{decimal, node_id_components, typed_components}
use opentelemetry_collector.Ua.Buffers.{BufferApi}
use opentelemetry_collector.Ua.NodeIds.{
  NodeIdApi, NodeIdType, is_numeric, two_byte, four_byte, numeric, string, guid, byte_string,
}

zero_left : (a b : ℕ) → (a == 0 && b == 0) ≡ true → a ≡ 0
zero_left a b h = ground arith

zero_right : (a b : ℕ) → (a == 0 && b == 0) ≡ true → b ≡ 0
zero_right a b h = ground arith

module _ (ua : NodeIdApi) (bufs : BufferApi) where
  open ua use {NodeId, new_numeric, new_string, namespace, type_of, int_id, string_id}

  -- What a record tells of its source node once it has crossed the wire: a string in namespace 0
  -- and a nil pointer become the numeric node 0, an identifier that is neither numeric nor a
  -- string becomes the numeric 0 of its namespace, and every other node keeps its components.
  unfoldable pub wire_components : Option NodeId → ℕ × Text × Text
  wire_components none = (0, lit "Numeric", decimal 0)
  wire_components (some n) =
      if is_string (type_of n) && namespace n == 0
      then (0, lit "Numeric", decimal 0)
      else if is_string (type_of n) || is_numeric (type_of n)
      then node_id_components ua (some n)
      else (namespace n, lit "Numeric", decimal 0)

  typed-numeric :
      (t : NodeIdType) (n : NodeId)
      → is_numeric t ≡ true
      → typed_components ua t n ≡ (lit "Numeric", decimal (int_id n))
  unfolding typed_components
  typed-numeric two_byte n h = refl
  typed-numeric four_byte n h = refl
  typed-numeric numeric n h = refl
  typed-numeric string n h = cc
  typed-numeric guid n h = cc
  typed-numeric byte_string n h = cc

  typed-string : (n : NodeId) → typed_components ua string n ≡ (lit "String", string_id n)
  unfolding typed_components
  typed-string n = refl

  components_steps :
      (n : NodeId)
      → node_id_components ua (some n) ≡ (
        namespace n,
        (typed_components ua (type_of n) n).0,
        (typed_components ua (type_of n) n).1,
      )
  unfolding node_id_components
  components_steps n = refl

  components-new_numeric :
      (ns id : ℕ)
      → ns < 2 ^ 16
      → id < 2 ^ 32
      → node_id_components ua (some (new_numeric ns id)) ≡ (ns, lit "Numeric", decimal id)
  components-new_numeric ns id h k =
      components_steps (new_numeric ns id)
      ∙ rw (
        typed-numeric (type_of (new_numeric ns id)) (new_numeric ns id) (ua.numeric_type ns id),
        ua.numeric_namespace ns id h,
        ua.numeric_int_id ns id k,
      )

  components-new_string :
      (ns : ℕ) (s : Text)
      → ns < 2 ^ 16
      → node_id_components ua (some (new_string ns s)) ≡ (ns, lit "String", s)
  components-new_string ns s h =
      components_steps (new_string ns s)
      ∙ rw (
        ua.string_type ns s,
        typed-string (new_string ns s),
        ua.string_namespace ns s h,
        ua.string_string_id ns s,
      )

  image-none : node_image ua bufs none ≡ new_numeric 0 0
  unfolding node_image
  image-none = refl

  -- A node that is not a string is read back as a numeric one.
  image-plain :
      (n : NodeId)
      → is_string (type_of n) ≡ false
      → node_image ua bufs (some n) ≡ new_numeric (namespace n) (int_id n)
  unfolding node_image
  image-plain n h = elim (Bool-cases (namespace n == 0 && int_id n == 0)) [
    | inl null ↦
        rw null (
          ap₂ (λ (x y : ℕ). new_numeric x y) (sym (zero_left _ _ null)) (sym (zero_right _ _ null)))
    | inr other ↦ rw (other, h)
  ]

  components-plain :
      (n : NodeId)
      → is_string (type_of n) ≡ false
      → node_id_components ua (some (node_image ua bufs (some n)))
        ≡ (namespace n, lit "Numeric", decimal (int_id n))
  components-plain n h =
      rw (image-plain n h)
        (components-new_numeric (namespace n) (int_id n) (ua.namespace_range n) (ua.int_id_range n))

  string-decided : (t : NodeIdType) → is_string t ≡ true → t ≡ string
  string-decided string h = refl
  string-decided two_byte h = cc
  string-decided four_byte h = cc
  string-decided numeric h = cc
  string-decided guid h = cc
  string-decided byte_string h = cc

  image-string :
      (n : NodeId)
      → is_string (type_of n) ≡ true
      → node_image ua bufs (some n)
        ≡ (if namespace n == 0 then new_numeric 0 0 else new_string (namespace n) (string_id n))
  unfolding node_image
  image-string n h =
      let none_left : int_id n ≡ 0 = ua.int_id_other n (rw (string-decided (type_of n) h) refl) in
      elim (Bool-cases (namespace n == 0)) [
        | inl null ↦ rw (null, none_left)
        | inr other ↦ rw (other, h)
      ]

  components-numeric :
      (n : NodeId)
      → is_numeric (type_of n) ≡ true
      → node_id_components ua (some n) ≡ (namespace n, lit "Numeric", decimal (int_id n))
  components-numeric n h = components_steps n ∙ rw (typed-numeric (type_of n) n h)

  components-string :
      (n : NodeId)
      → is_string (type_of n) ≡ true
      → node_id_components ua (some n) ≡ (namespace n, lit "String", string_id n)
  components-string n h = components_steps n ∙ rw (string-decided (type_of n) h, typed-string n)

  node_id_components-node_image :
      (o : Option NodeId) → node_id_components ua (some (node_image ua bufs o)) ≡ wire_components o
  unfolding wire_components
  node_id_components-node_image none =
      rw image-none (components-new_numeric 0 0 (omega arith) (omega arith))
  node_id_components-node_image (some n) = elim (Bool-cases (is_string (type_of n))) [
    | inl is ↦
        rw (image-string n is, is)
          (elim (Bool-cases (namespace n == 0)) [
            | inl null ↦ rw null (components-new_numeric 0 0 (omega arith) (omega arith))
            | inr other ↦ rw other (
                components-new_string (namespace n) (string_id n) (ua.namespace_range n)
                ∙ sym (components-string n is))
          ])
    | inr isnt ↦
        rw (isnt, components-plain n isnt)
          (elim (Bool-cases (is_numeric (type_of n))) [
            | inl num ↦ rw num (sym (components-numeric n num))
            | inr other ↦ rw (other, ua.int_id_other n other)
          ])
  ]

  -- What `readNodeIDFromBuffer` reads of what `writeNodeIDToBuffer` wrote.
  unfoldable pub node_through : Option NodeId → NodeId
  node_through o =
      (read_node_id ua bufs
        (bufs.new_buffer (bufs.bytes (write_node_id ua bufs o (bufs.new_buffer [])).1))).0

  node_through-node_image :
      (o : Option NodeId) → NodeFits ua o → node_through o ≡ node_image ua bufs o
  unfolding node_through
  node_through-node_image o h =
      let written =
        (Writes-write_node_id ua bufs o).run (bufs.new_buffer []) ∙ rw bufs.bytes-new_buffer in
      let (got, left, ok, at) =
        (Reads-read_node_id ua bufs o h).run (bufs.new_buffer (node_bytes ua bufs o)) []
          (bufs.error-new_buffer _)
          (bufs.unread-new_buffer _ ∙ sym (append-nil (node_bytes ua bufs o))) in
      rw (written, node_through) got

  -- Of a node that fits its encoding: the components of the node that `readNodeIDFromBuffer` reads
  -- of what `writeNodeIDToBuffer` wrote are `wire_components` of the node: numeric nodes and
  -- strings outside namespace 0 keep theirs, and all others become a numeric 0.
  pub node_id_components-node_through :
      (o : Option NodeId)
      → NodeFits ua o
      → node_id_components ua (some (node_through o)) ≡ wire_components o
  node_id_components-node_through o h =
      rw (node_through-node_image o h) (node_id_components-node_image o)
