-- ===== src/Transformer.antt =====
-- receiver/opcua/transformer.go: OPC UA log records to OpenTelemetry log records.
pub mod Trace
pub mod Attributes
pub mod Frame
pub mod Resource
pub mod Each
use opentelemetry_collector.Common.{
  ℕ, suc, ◌==◌, ◌&&◌, Bool, true, false, not, List, [], ◌∷◌, Option, none, some, length, bit_and,
  Text, lit, is_empty, is_nil, Dict, if◌then◌else◌,
}
use opentelemetry_collector.LogRecord.Hex.{decode_hex}
use opentelemetry_collector.Pdata.{PdataApi}
use opentelemetry_collector.Severity.{map_severity, severity_to_text}
use opentelemetry_collector.Value
use opentelemetry_collector.Value.{Value, Time, OpcuaLogRecord}

-- `Transformer`
pub record Transformer : Type 0 where
  pub server_endpoint : Text
  pub service_name : Text
  pub service_namespace : Text

-- `NewTransformer`
unfoldable pub new_transformer : Text → Text → Text → Transformer
new_transformer server_endpoint service_name service_namespace = record {
  server_endpoint = server_endpoint;
  service_name = if is_empty service_name then lit "opcua-server" else service_name;
  service_namespace = service_namespace;
}

-- The functions of Go's standard library that are taken as given: the host of `url.Parse` (empty
-- where there is none, `none` for an error), `net.SplitHostPort`, `strconv.ParseInt` in base 10,
-- and `fmt.Sprintf("%v", v)`.
pub record StdApi : Type 0 where
  pub parse_host : Text → Option Text
  pub split_host_port : Text → Option (Text × Text)
  pub parse_int : Text → Option ℕ
  pub sprint : Value → Text

module _ (pdata : PdataApi) (std : StdApi) where
  open pdata use {
    Map, LogRecord, Logs, new_map, put_str, put_int, put_double, put_bool, new_timestamp,
    default_flags, with_is_sampled, new_log_record, view, set_timestamp, set_observed_timestamp,
    set_severity_number, set_severity_text, set_body, set_attributes, set_trace_id, set_span_id,
    set_flags, new_logs, append_resource_logs,
  }
  open std use {parse_host, split_host_port, parse_int, sprint}

  put_port : Map → Option ℕ → Map
  put_port attrs none = attrs
  put_port attrs (some port) = put_int attrs (lit "server.port") port

  put_server : Map → Text → Option (Text × Text) → Map
  put_server attrs host none = put_str attrs (lit "server.address") host
  put_server attrs host (some (name, port)) =
      put_port (put_str attrs (lit "server.address") name) (parse_int port)

  put_endpoint : Map → Option Text → Map
  put_endpoint attrs none = attrs
  put_endpoint attrs (some host) =
      if is_empty host then attrs else put_server attrs host (split_host_port host)

  -- `setResourceAttributes`
  unfoldable pub set_resource_attributes : Transformer → Map → Map
  unfolding put_endpoint put_server put_port
  set_resource_attributes t attrs =
      let named = put_str attrs (lit "service.name") t.service_name in
      let spaced =
        if is_empty t.service_namespace
        then named
        else put_str named (lit "service.namespace") t.service_namespace in
      put_endpoint spaced (parse_host t.server_endpoint)

  -- `putAttribute`
  unfoldable pub put_attribute : Map → Text → Value → Map
  put_attribute attrs key (Value.text v) = put_str attrs key v
  put_attribute attrs key (Value.int v) = put_int attrs key v
  put_attribute attrs key (Value.int64 v) = put_int attrs key v
  put_attribute attrs key (Value.float64 v) = put_double attrs key v
  put_attribute attrs key (Value.bool v) = put_bool attrs key v
  put_attribute attrs key v = put_str attrs key (sprint v)

  -- The loop over the custom attributes.
  unfoldable pub put_attributes : Map → Dict Value → Map
  put_attributes attrs [] = attrs
  put_attributes attrs ((key, value) ∷ m) = put_attributes (put_attribute attrs key value) m

  -- The attributes that tell where the record comes from.
  unfoldable pub put_source : Map → OpcuaLogRecord → Map
  put_source attrs r =
      let named =
        if is_empty r.source_name
        then attrs
        else put_str attrs (lit "opcua.source.name") r.source_name in
      if is_empty r.source_id_type
      then named
      else put_str
          (put_str (put_int named (lit "opcua.source.namespace") r.source_namespace)
            (lit "opcua.source.id_type") r.source_id_type)
          (lit "opcua.source.id") r.source_id

  -- An identifier is set only if its text decodes to bytes of the right number.
  set_id : (LogRecord → List ℕ → LogRecord) → ℕ → LogRecord → Option (List ℕ) → LogRecord
  set_id set width record' none = record'
  set_id set width record' (some bytes) =
      if length bytes == width then set record' bytes else record'

  -- `setTraceContext`
  unfoldable pub set_trace_context : LogRecord → Text → Text → ℕ → LogRecord
  unfolding set_id
  set_trace_context r trace_id span_id flags =
      let traced = set_id set_trace_id 16 r (decode_hex trace_id) in
      let spanned = set_id set_span_id 8 traced (decode_hex span_id) in
      set_flags spanned (
        if not (bit_and flags 0x01 == 0) then with_is_sampled default_flags true else default_flags)

  -- `transformLogRecord`; `now` is what `time.Now` returns.
  unfoldable pub transform_log_record : Time → OpcuaLogRecord → LogRecord → LogRecord
  transform_log_record now opcua r =
      let r1 = set_timestamp r (new_timestamp opcua.timestamp) in
      let r2 = set_observed_timestamp r1 (new_timestamp now) in
      let r3 = set_severity_number r2 (map_severity opcua.severity) in
      let r4 = set_severity_text r3 (severity_to_text opcua.severity) in
      let r5 = set_body r4 opcua.message in
      let attrs = put_attributes (put_source (view r5).attributes opcua) opcua.attributes in
      let r6 = set_attributes r5 attrs in
      if not (is_empty opcua.trace_id) && not (is_empty opcua.span_id)
      then set_trace_context r6 opcua.trace_id opcua.span_id opcua.trace_flags
      else r6

  -- The loop over the records; `clock i` is what `time.Now` returns for the record at `i`.
  unfoldable pub transform_records : (ℕ → Time) → ℕ → List OpcuaLogRecord → List LogRecord
  transform_records clock i [] = []
  transform_records clock i (r ∷ rs) =
      transform_log_record (clock i) r new_log_record ∷ transform_records clock (suc i) rs

  -- `TransformLogs`
  unfoldable pub transform_logs : Transformer → (ℕ → Time) → List OpcuaLogRecord → Logs
  transform_logs t clock records =
      if is_nil records
      then new_logs
      else append_resource_logs new_logs (set_resource_attributes t new_map)
          (lit "github.com/bruegth/opentelemetry-collector-opcua-receiver") (lit "0.1.0")
          (transform_records clock 0 records)
