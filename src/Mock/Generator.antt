-- ===== src/Mock/Generator.antt =====
-- The generator of test records of receiver/opcua/testdata/generator.go. What `rand` and `time.Now`
-- return is an argument.
pub mod Traces
use opentelemetry_collector.Common.{
  get_elem?, ℕ, zero, suc, ◌*◌, ◌^◌, ◌<◌, Bool, true, List, [], ◌∷◌, Option, none, some, ℤ,
  pos_part, neg_part, sub_ℕ, ◌+◌, Text, lit, Dict,
}
use mathlib.Core.Option
use opentelemetry_collector.LogRecord.Hex.{hex_padded}
use opentelemetry_collector.Records.{decimal}
use opentelemetry_collector.Value.{Value, Time, OpcuaLogRecord}

-- `severities`
abbrev pub severities : List ℕ
severities = 25 ∷ 75 ∷ 125 ∷ 175 ∷ 225 ∷ 275 ∷ 350 ∷ 500 ∷ []

-- `sourceNodes`
pub record SourceNode : Type 0 where
  pub name : Text
  pub namespace : ℕ
  pub id : ℕ

abbrev pub source_nodes : List SourceNode
source_nodes =
    record { name = lit "SystemComponent"; namespace = 1; id = 100 }
    ∷ record { name = lit "DeviceDriver"; namespace = 1; id = 101 }
    ∷ record { name = lit "NetworkModule"; namespace = 1; id = 102 }
    ∷ record { name = lit "DataLogger"; namespace = 1; id = 103 }
    ∷ record { name = lit "SecurityModule"; namespace = 1; id = 104 }
    ∷ []

-- `messages`
abbrev pub messages : List Text
messages =
    lit "Operation completed successfully"
    ∷ lit "Connection established"
    ∷ lit "Data processing started"
    ∷ lit "Configuration updated"
    ∷ lit "Sensor reading collected"
    ∷ lit "Warning: high memory usage"
    ∷ lit "Error: connection timeout"
    ∷ lit "Critical: system overload"
    ∷ []

-- The calls of `rand` in one record, and the time at which it is made.
pub record Draws : Type 0 where
  pub severity : ℕ
  pub source : ℕ
  pub now : Time
  pub seconds : ℕ
  pub message : ℕ
  pub trace_id : ℕ
  pub span_id : ℕ
  pub trace_flags : ℕ

-- `Intn(n)` is below n, and `Int63` below 2 ^ 63.
pub record IsDrawn (d : Draws) : Type 0 where
  pub severity : d.severity < 8
  pub source : d.source < 5
  pub seconds : d.seconds < 3600
  pub message : d.message < 8
  pub trace_id : d.trace_id < 2 ^ 63
  pub span_id : d.span_id < 2 ^ 63
  pub trace_flags : d.trace_flags < 2

-- A time that many seconds before another.
abbrev pub seconds_before : Time → ℕ → Time
seconds_before t n = sub_ℕ (pos_part t) (neg_part t + n * 10 ^ 9)

sample : ℕ → Draws → ℕ → SourceNode → Text → OpcuaLogRecord
sample seed d severity src message = record {
  timestamp = seconds_before d.now d.seconds;
  severity = severity;
  message = message;
  source_name = src.name;
  source_namespace = src.namespace;
  source_id_type = lit "Numeric";
  source_id = decimal src.id;
  trace_id = hex_padded 32 d.trace_id;
  span_id = hex_padded 16 d.span_id;
  trace_flags = d.trace_flags;
  attributes =
      (lit "component", Value.text (lit "test"))
      ∷ (lit "version", Value.text (lit "1.0.0"))
      ∷ (lit "index", Value.int seed)
      ∷ [];
}

-- `GenerateSampleLogRecord`; `none` is an index out of range. The seed is its bit pattern.
unfoldable pub generate_sample_log_record : ℕ → Draws → Option OpcuaLogRecord
unfolding sample
generate_sample_log_record seed d = elim (get_elem? severities d.severity) [
  | none ↦ none
  | some severity ↦ elim (get_elem? source_nodes d.source) [
    | none ↦ none
    | some src ↦ Option.map (sample seed d severity src) (get_elem? messages d.message)
  ]
]

-- `GenerateLogRecordWithDetails`
unfoldable pub generate_log_record_with_details :
    Time → ℕ → Text → Text → (trace_id span_id : ℕ) → OpcuaLogRecord
generate_log_record_with_details timestamp severity message source_name trace_id span_id = record {
  timestamp = timestamp;
  severity = severity;
  message = message;
  source_name = source_name;
  source_namespace = 1;
  source_id_type = lit "Numeric";
  source_id = lit "100";
  trace_id = hex_padded 32 trace_id;
  span_id = hex_padded 16 span_id;
  trace_flags = 1;
  attributes = (lit "test", Value.bool true) ∷ [];
}

-- The loop of `GenerateSampleLogRecords`, from the index `i` on with `left` records to make.
samples_from : (ℕ → Draws) → ℕ → ℕ → Option (List OpcuaLogRecord)
samples_from draws i zero = some []
samples_from draws i (suc left) =
    let rest = samples_from draws (suc i) left in
    elim (generate_sample_log_record i (draws i)) [
      | none ↦ none
      | some r ↦ Option.map (λ (rs : List OpcuaLogRecord). r ∷ rs) rest
    ]

-- `GenerateSampleLogRecords`; `draws i` is what is drawn for the record at `i`.
unfoldable pub generate_sample_log_records : (ℕ → Draws) → ℕ → Option (List OpcuaLogRecord)
unfolding samples_from
generate_sample_log_records draws count = samples_from draws 0 count
