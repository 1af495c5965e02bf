-- ===== src/Records/Parse/Truncated.antt =====
-- `parseLogRecordFromExtensionObject` of receiver/opcua/get_records.go on a body that has been cut
-- short.
use opentelemetry_collector.Common.{
  ℕ, ◌≡◌, ◌≢◌, refl, ap, Bool-cases, Option-cases, All, map, inl, inr, List, [], ◌∷◌, ◌++◌, Option,
  none, some, is_nil,
}
use opentelemetry_collector.LogRecord.Codec.{LogRecordExtObj, fresh, decode, encode}
use opentelemetry_collector.LogRecord.Codec.RoundTrip.{IsWire}
use opentelemetry_collector.LogRecord.Codec.RoundTrip.Truncated.{decode-truncated}
use opentelemetry_collector.Records.Parse.{
  Body, raw, unless_error, parse_log_record_from_extension_object, parse_extension_object_array,
}
use opentelemetry_collector.Records.Parse.Arrays.{sent, received, parse_extension_object_array-sent}
use opentelemetry_collector.Ua.Buffers.{BufferApi, LocalReads}
use opentelemetry_collector.Ua.NodeIds.{NodeIdApi}
use opentelemetry_collector.Value.{OpcuaLogRecord}

module _ (ua : NodeIdApi) (bufs : BufferApi) where
  open ua use {NodeId}

  unless_error-failed :
      {Error : Type 0} (result : LogRecordExtObj NodeId × ℕ × Option Error)
      → result.2 ≢ none
      → unless_error ua bufs result ≡ none
  unfolding unless_error
  unless_error-failed (l, pos, none) h = absurd (h refl)
  unless_error-failed (l, pos, some e) h = refl

  parse_raw-truncated :
      (l : LogRecordExtObj NodeId) (part rest : List ℕ)
      → LocalReads bufs
      → IsWire ua bufs l
      → part ++ rest ≡ (encode ua bufs l).0
      → rest ≢ []
      → parse_log_record_from_extension_object ua bufs (raw part) ≡ none
  unfolding parse_log_record_from_extension_object
  parse_raw-truncated l part rest reads w e more = elim (Bool-cases (is_nil part)) [
    | inl empty ↦ rw empty
    | inr some_bytes ↦ rw some_bytes (
        unless_error-failed (decode ua bufs (fresh NodeId) part)
          (decode-truncated ua bufs reads l part rest w e more))
  ]

  parse_extension_object_array-append :
      (xs ys : List (Option (Body NodeId)))
      → parse_extension_object_array ua bufs (xs ++ ys)
        ≡ parse_extension_object_array ua bufs xs ++ parse_extension_object_array ua bufs ys
  unfolding parse_extension_object_array
  parse_extension_object_array-append [] ys = refl
  parse_extension_object_array-append (none ∷ xs) ys = parse_extension_object_array-append xs ys
  parse_extension_object_array-append (some obj ∷ xs) ys =
      elim (Option-cases (parse_log_record_from_extension_object ua bufs obj)) [
        | inl e ↦ rw (e, parse_extension_object_array) (parse_extension_object_array-append xs ys)
        | inr (r, e) ↦
            rw (e, parse_extension_object_array)
              (ap (λ (rs : List OpcuaLogRecord). r ∷ rs)
                (parse_extension_object_array-append xs ys))
      ]

  skip_object :
      (obj : Body NodeId) (objs : List (Option (Body NodeId)))
      → parse_log_record_from_extension_object ua bufs obj ≡ none
      → parse_extension_object_array ua bufs (some obj ∷ objs)
        ≡ parse_extension_object_array ua bufs objs
  unfolding parse_extension_object_array
  skip_object obj objs e = rw (e, parse_extension_object_array)

  -- In an array of the encoded bodies of records that fit the wire, one body that has been cut
  -- short, to a proper prefix of the encoding of a record that fits the wire, is left out and no
  -- other is, where the buffer's reads fail when the bytes run out.
  pub parse_extension_object_array-truncated :
      (ls ls' : List (LogRecordExtObj NodeId)) (l : LogRecordExtObj NodeId) (part rest : List ℕ)
      → LocalReads bufs
      → All (IsWire ua bufs) ls
      → All (IsWire ua bufs) ls'
      → IsWire ua bufs l
      → part ++ rest ≡ (encode ua bufs l).0
      → rest ≢ []
      → parse_extension_object_array ua bufs
          (map (sent ua bufs) ls ++ (some (raw part) ∷ map (sent ua bufs) ls'))
        ≡ map (received ua bufs) ls ++ map (received ua bufs) ls'
  parse_extension_object_array-truncated ls ls' l part rest reads h h' w e more = rw (
    parse_extension_object_array-append,
    skip_object (raw part) (map (sent ua bufs) ls')
        (parse_raw-truncated l part rest reads w e more),
    parse_extension_object_array-sent ua bufs ls h,
    parse_extension_object_array-sent ua bufs ls' h',
  )
