-- ===== src/Value.antt =====
-- Go values behind `interface{}`, as receiver/opcua/log_record_type.go, get_records.go and
-- transformer.go read and write them, and the OPCUALogRecord of receiver/opcua/testdata/types.go.
use opentelemetry_collector.Common.{ℕ, Bool, ℤ, negsuc, ◌*◌, ◌^◌, ◌-◌, Text, Dict}

-- A `time.Time`, as nanoseconds since the Unix epoch. The zero time is the start of year 1.
abbrev pub Time : Type 0
Time = ℤ

abbrev pub zero_time : Time
zero_time = negsuc (62135596800 * 10 ^ 9 - 1)

-- An intN or uintN is its bit pattern below 2 ^ N, a float its IEEE 754 pattern. `other` stands for
-- the types that no code names.
mutual
  pub data Value : Type 0 where
    nil : Value
    text : Text → Value
    bool : Bool → Value
    int int8 int16 int32 int64 : ℕ → Value
    uint8 uint16 uint32 uint64 : ℕ → Value
    float32 float64 : ℕ → Value
    time : Time → Value
    slice : Values → Value
    dict : Fields → Value
    other : ℕ → Value

  pub data Values : Type 0 where
    stop : Values
    item : Value → Values → Values

  -- The entries of a map; the order is the one in which a `range` visits them.
  pub data Fields : Type 0 where
    done : Fields
    field : Text → Value → Fields → Fields

-- `OPCUALogRecord`
pub record OpcuaLogRecord : Type 0 where
  pub timestamp : Time
  pub severity : ℕ
  pub message : Text
  pub source_name : Text
  pub source_namespace : ℕ
  pub source_id_type : Text
  pub source_id : Text
  pub trace_id : Text
  pub span_id : Text
  pub trace_flags : ℕ
  pub attributes : Dict Value
