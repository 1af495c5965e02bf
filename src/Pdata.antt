-- ===== src/Pdata.antt =====
-- The parts of go.opentelemetry.io/collector/pdata that receiver/opcua/transformer.go fills, as an
-- interface with the documented laws: a put inserts or updates, a setter sets its field alone.
pub mod Concrete
use opentelemetry_collector.Common.{
  ℕ, ◌+◌, ◌≡◌, Bool, false, List, [], ◌++◌, Option, none, some, length, Text, text_eq,
  if◌then◌else◌,
}
use opentelemetry_collector.Severity.{SeverityNumber}
use opentelemetry_collector.Value.{Time}

-- An attribute's value; an int64 and a float64 are bit patterns.
pub data Attribute : Type 0 where
  str : Text → Attribute
  int : ℕ → Attribute
  double : ℕ → Attribute
  bool : Bool → Attribute

-- What a log record holds.
pub record View (Map Timestamp Flags : Type 0) : Type 0 where
  pub timestamp : Timestamp
  pub observed_timestamp : Timestamp
  pub severity_number : SeverityNumber
  pub severity_text : Text
  pub body : Text
  pub attributes : Map
  pub trace_id : List ℕ
  pub span_id : List ℕ
  pub flags : Flags

pub record PdataApi : Type 1 where
  pub Map : Type 0
  pub Timestamp : Type 0
  pub Flags : Type 0
  pub LogRecord : Type 0
  pub Logs : Type 0
  -- pcommon.Map
  pub new_map : Map
  pub put_str : Map → Text → Text → Map
  pub put_int : Map → Text → ℕ → Map
  pub put_double : Map → Text → ℕ → Map
  pub put_bool : Map → Text → Bool → Map
  pub get : Map → Text → Option Attribute
  pub get-new_map : (k : Text) → get new_map k ≡ none
  pub get-put_str :
      (m : Map) (j : Text) (v : Text) (k : Text)
      → get (put_str m j v) k ≡ (if text_eq j k then some (str v) else get m k)
  pub get-put_int :
      (m : Map) (j : Text) (v : ℕ) (k : Text)
      → get (put_int m j v) k ≡ (if text_eq j k then some (int v) else get m k)
  pub get-put_double :
      (m : Map) (j : Text) (v : ℕ) (k : Text)
      → get (put_double m j v) k ≡ (if text_eq j k then some (double v) else get m k)
  pub get-put_bool :
      (m : Map) (j : Text) (v : Bool) (k : Text)
      → get (put_bool m j v) k ≡ (if text_eq j k then some (bool v) else get m k)
  -- pcommon.NewTimestampFromTime and plog.LogRecordFlags
  pub new_timestamp : Time → Timestamp
  pub default_flags : Flags
  pub with_is_sampled : Flags → Bool → Flags
  pub is_sampled : Flags → Bool
  pub is_sampled-default : is_sampled default_flags ≡ false
  pub is_sampled-with : (f : Flags) (b : Bool) → is_sampled (with_is_sampled f b) ≡ b
  -- plog.LogRecord; `set_attributes` stands for puts through the map that `Attributes` returns.
  pub new_log_record : LogRecord
  pub view : LogRecord → View Map Timestamp Flags
  pub set_timestamp : LogRecord → Timestamp → LogRecord
  pub set_observed_timestamp : LogRecord → Timestamp → LogRecord
  pub set_severity_number : LogRecord → SeverityNumber → LogRecord
  pub set_severity_text : LogRecord → Text → LogRecord
  pub set_body : LogRecord → Text → LogRecord
  pub set_attributes : LogRecord → Map → LogRecord
  pub set_trace_id : LogRecord → List ℕ → LogRecord
  pub set_span_id : LogRecord → List ℕ → LogRecord
  pub set_flags : LogRecord → Flags → LogRecord
  pub new-attributes : View.attributes (view new_log_record) ≡ new_map
  pub new-flags : View.flags (view new_log_record) ≡ default_flags
  pub view-timestamp :
      (r : LogRecord) (t : Timestamp) → view (set_timestamp r t) ≡ record (view r) { timestamp = t }
  pub view-observed_timestamp :
      (r : LogRecord) (t : Timestamp)
      → view (set_observed_timestamp r t) ≡ record (view r) { observed_timestamp = t }
  pub view-severity_number :
      (r : LogRecord) (n : SeverityNumber)
      → view (set_severity_number r n) ≡ record (view r) { severity_number = n }
  pub view-severity_text :
      (r : LogRecord) (s : Text)
      → view (set_severity_text r s) ≡ record (view r) { severity_text = s }
  pub view-body : (r : LogRecord) (s : Text) → view (set_body r s) ≡ record (view r) { body = s }
  pub view-attributes :
      (r : LogRecord) (m : Map) → view (set_attributes r m) ≡ record (view r) { attributes = m }
  pub view-trace_id :
      (r : LogRecord) (bs : List ℕ) → view (set_trace_id r bs) ≡ record (view r) { trace_id = bs }
  pub view-span_id :
      (r : LogRecord) (bs : List ℕ) → view (set_span_id r bs) ≡ record (view r) { span_id = bs }
  pub view-flags :
      (r : LogRecord) (f : Flags) → view (set_flags r f) ≡ record (view r) { flags = f }
  -- plog.Logs: `log_records` are those of all its entries, in order, and `append_resource_logs` stands for one resource entry with one scope entry, each
  -- made by `AppendEmpty` and then filled.
  pub new_logs : Logs
  pub append_resource_logs : Logs → Map → Text → Text → List LogRecord → Logs
  pub log_record_count : Logs → ℕ
  pub log_records : Logs → List LogRecord
  pub log_records-new_logs : log_records new_logs ≡ []
  pub log_records-append :
      (l : Logs) (m : Map) (scope version : Text) (rs : List LogRecord)
      → log_records (append_resource_logs l m scope version rs) ≡ log_records l ++ rs
  pub count-new_logs : log_record_count new_logs ≡ 0
  pub count-append :
      (l : Logs) (m : Map) (scope version : Text) (rs : List LogRecord)
      → log_record_count (append_resource_logs l m scope version rs)
        ≡ log_record_count l + length rs
