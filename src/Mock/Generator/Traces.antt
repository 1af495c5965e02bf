-- ===== src/Mock/Generator/Traces.antt =====
-- The records of receiver/opcua/testdata/generator.go as receiver/opcua/transformer.go takes them.
use opentelemetry_collector.Common.{
  get_elem?, ℕ, zero, suc, ◌<◌, ◌≡◌, ◌≢◌, ◌⊎◌, refl, ap, inl, inr, true, ◌==◌, not, List, [], ◌∷◌,
  some, length, All, if◌then◌else◌, bit_and, arith, Text,
}
use opentelemetry_collector.LogRecord.Hex.{
  big_endian, hex_padded-big_endian, decode_hex-encode_hex, length-big_endian, AreBytes-big_endian,
}
use opentelemetry_collector.Mock.Generator.{
  severities, SourceNode, source_nodes, messages, Draws, IsDrawn, sample,
  generate_sample_log_record, samples_from, generate_sample_log_records,
}
use opentelemetry_collector.Pdata.{PdataApi, View}
use opentelemetry_collector.Severity.{unspecified, map_severity}
use opentelemetry_collector.Transformer.{StdApi, transform_log_record}
use opentelemetry_collector.Transformer.Trace.{plain_view, view-traced, not_empty-encode_hex}
use opentelemetry_collector.Value.{OpcuaLogRecord, Time}

get_elem?_of_lt :
    {A : Type 0} (P : A → Type 0) (xs : List A) (i : ℕ)
    → All P xs
    → i < length xs
    → (x : A) × (get_elem? xs i ≡ some x) × P x
get_elem?_of_lt P [] i h k = absurd (omega arith)
get_elem?_of_lt P (x ∷ xs) zero h k = (x, refl, h.0)
get_elem?_of_lt P (x ∷ xs) (suc i) h k = get_elem?_of_lt P xs i h.1 (omega arith)

abbrev IsSpecified : ℕ → Type 0
IsSpecified s = map_severity s ≢ unspecified

severities-IsSpecified : All IsSpecified severities
unfolding map_severity
severities-IsSpecified = (
  (λ e. cc),
  ((λ e. cc), ((λ e. cc), ((λ e. cc), ((λ e. cc), ((λ e. cc), ((λ e. cc), ((λ e. cc), tt))))))),
)

trivially : {A : Type 0} (xs : List A) → All (λ x. Unit {0}) xs
trivially [] = tt
trivially (x ∷ xs) = (tt, trivially xs)

module _ (pdata : PdataApi) (std : StdApi) where
  open pdata use {LogRecord, view, new_log_record, is_sampled, default_flags, with_is_sampled}

  -- What the transformer makes of a record that was drawn: the drawn numbers as identifiers, the
  -- flag, and a severity that is specified.
  abbrev pub IsComplete : Draws → OpcuaLogRecord → Type 0
  IsComplete d o =
      (now : Time)
      → (View.trace_id (view (transform_log_record pdata std now o new_log_record))
          ≡ big_endian 16 d.trace_id)
        × (View.span_id (view (transform_log_record pdata std now o new_log_record))
            ≡ big_endian 8 d.span_id)
        × (is_sampled (View.flags (view (transform_log_record pdata std now o new_log_record)))
            ≡ (d.trace_flags == 1))
        × (View.severity_number (view (transform_log_record pdata std now o new_log_record))
            ≢ unspecified)

  sampled :
      (f : ℕ)
      → (f ≡ 0) ⊎ (f ≡ 1)
      → is_sampled
          (if not (bit_and f 0x01 == 0) then with_is_sampled default_flags true else default_flags)
        ≡ (f == 1)
  sampled f (inl e) = rw e pdata.is_sampled-default
  sampled f (inr e) = rw e (pdata.is_sampled-with default_flags true)

  sample-IsComplete :
      (seed : ℕ) (d : Draws) (severity : ℕ) (src : SourceNode) (message : Text)
      → IsDrawn d
      → IsSpecified severity
      → IsComplete d (sample seed d severity src message)
  unfolding sample plain_view
  sample-IsComplete seed d severity src message w h now =
      let t = hex_padded-big_endian 16 d.trace_id in
      let s = hex_padded-big_endian 8 d.span_id in
      let seen =
        view-traced pdata std now (sample seed d severity src message) new_log_record
          (big_endian 16 d.trace_id) (big_endian 8 d.span_id)
          (rw
            (
              t,
              s,
              not_empty-encode_hex (big_endian 16 d.trace_id) 15 (length-big_endian 16 d.trace_id),
              not_empty-encode_hex (big_endian 8 d.span_id) 7 (length-big_endian 8 d.span_id),
            )
            refl)
          (rw t (decode_hex-encode_hex _ (AreBytes-big_endian 16 d.trace_id)))
          (length-big_endian 16 d.trace_id)
          (rw s (decode_hex-encode_hex _ (AreBytes-big_endian 8 d.span_id)))
          (length-big_endian 8 d.span_id) in
      (rw seen, rw seen, rw seen (sampled d.trace_flags (flag d w.trace_flags)), rw seen h)
    where
      flag : (d : Draws) → d.trace_flags < 2 → (d.trace_flags ≡ 0) ⊎ (d.trace_flags ≡ 1)
      flag d k = ground arith

  -- The record at each place is complete for what was drawn for it.
  abbrev pub AreComplete : (ℕ → Draws) → ℕ → List OpcuaLogRecord → Type 0
  AreComplete draws i [] = Unit
  AreComplete draws i (r ∷ rs) = IsComplete (draws i) r × AreComplete draws (suc i) rs

  sample_total :
      (seed : ℕ) (d : Draws)
      → IsDrawn d
      → (r : OpcuaLogRecord) × (generate_sample_log_record seed d ≡ some r) × IsComplete d r
  unfolding generate_sample_log_record
  sample_total seed d w =
      let (severity, e1, h) =
        get_elem?_of_lt IsSpecified severities d.severity severities-IsSpecified w.severity in
      let (src, e2, h2) =
        get_elem?_of_lt (λ x. Unit {0}) source_nodes d.source (trivially source_nodes) w.source in
      let (message, e3, h3) =
        get_elem?_of_lt (λ x. Unit {0}) messages d.message (trivially messages) w.message in
      (
        sample seed d severity src message,
        rw (e1, e2, e3),
        sample-IsComplete seed d severity src message w h,
      )

  samples_from-AreComplete :
      (draws : ℕ → Draws)
      → ((i : ℕ) → IsDrawn (draws i))
      → (i left : ℕ)
      → (rs : List OpcuaLogRecord) × (samples_from draws i left ≡ some rs)
        × (length rs ≡ left)
        × AreComplete draws i rs
  unfolding samples_from
  samples_from-AreComplete draws w i zero = ([], refl, refl, tt)
  samples_from-AreComplete draws w i (suc left) =
      let (r, e, c) = sample_total i (draws i) (w i) in
      let (rs, es, n, cs) = samples_from-AreComplete draws w (suc i) left in
      (r ∷ rs, rw (samples_from, e, es), ap suc n, (c, cs))

  -- Whatever is drawn within the ranges of `Intn` and `Int63`, the generator ends with no index out
  -- of range and as many records as asked for, and the transformer makes of each of them a log
  -- record with the number drawn for the trace as 16 bytes and the number drawn for the span as 8
  -- bytes, the highest first, the sampled flag exactly if 1 was drawn for it, and a severity number
  -- that is not unspecified.
  pub generate_sample_log_records-AreComplete :
      (draws : ℕ → Draws) (count : ℕ)
      → ((i : ℕ) → IsDrawn (draws i))
      → (rs : List OpcuaLogRecord) × (generate_sample_log_records draws count ≡ some rs)
        × (length rs ≡ count)
        × AreComplete draws 0 rs
  unfolding generate_sample_log_records
  generate_sample_log_records-AreComplete draws count w = samples_from-AreComplete draws w 0 count
