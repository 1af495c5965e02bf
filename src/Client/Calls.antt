-- ===== src/Client/Calls.antt =====
-- `callGetRecordsMethod` of receiver/opcua/get_records.go, `findGetRecordsMethod` and `GetRecords`
-- of receiver/opcua/client.go.
pub mod Answers
pub mod Mocked
pub mod Asked
use opentelemetry_collector.Common.{
  ℕ, suc, ◌-◌, Bool, true, false, List, [], ◌∷◌, Option, none, some, length, is_nil, if◌then◌else◌,
  ℤ, Text, lit, text_eq,
}
use opentelemetry_collector.Client.Discovery.{OpcuaClient}
use opentelemetry_collector.Client.Paging
use opentelemetry_collector.Client.Paging.{Page, share, node_loop}
use opentelemetry_collector.Config.{Config}
use opentelemetry_collector.Records.Parse.{Payload, parse_log_records_data_type}
use opentelemetry_collector.Severity.{get_min_severity_value}
use opentelemetry_collector.Ua.Buffers.{BufferApi}
use opentelemetry_collector.Ua.NodeIds.{NodeIdApi}
use opentelemetry_collector.Value.{Time, OpcuaLogRecord}

-- The status codes that the code tells apart.
pub data Status : Type 0 where
  good bad_invalid_argument bad_continuation_point_invalid bad_other : Status

pub record Reference (NodeId : Type 0) : Type 0 where
  pub browse_name : Text
  pub node_id : NodeId

pub record BrowseResult (NodeId : Type 0) : Type 0 where
  pub status : Status
  pub references : List (Reference NodeId)

pub record CallRequest (NodeId : Type 0) : Type 0 where
  pub object_id : NodeId
  pub method_id : NodeId
  pub start_time : Time
  pub end_time : Time
  pub max_records : ℕ
  pub min_severity : ℕ
  pub log_record_mask : ℕ
  pub continuation_point : List ℕ

-- The value of an output argument: a byte string, or what the parser of records takes.
pub data Output (NodeId : Type 0) : Type 0 where
  byte_string : List ℕ → Output NodeId
  payload : Payload NodeId → Output NodeId

-- `ua.CallMethodResult`; an output argument that is a nil pointer is `none`.
pub record CallResult (NodeId : Type 0) : Type 0 where
  pub status : Status
  pub outputs : List (Option (Output NodeId))

-- The services that the calls use, with a state of their own; `none` is an error. The Bool of
-- `browse` tells whether only HasComponent references are asked for.
pub record CallServices (NodeId : Type 0) : Type 1 where
  pub World : Type 0
  pub browse : NodeId → Bool → World → Option (List (BrowseResult NodeId)) × World
  pub call : CallRequest NodeId → World → Option (CallResult NodeId) × World

-- How a `Call` ended: with a page, an error, or an invalid continuation point.
pub data Outcome : Type 0 where
  answered : Page OpcuaLogRecord → Outcome
  point_invalid : Outcome

module _ (ua : NodeIdApi) (bufs : BufferApi) (services : CallServices (ua.NodeId)) where
  open ua use {NodeId, new_numeric}
  open services use {World, browse, call}

  -- The first reference with the method's name.
  unfoldable pub named_reference : List (Reference NodeId) → Option NodeId
  named_reference [] = none
  named_reference (ref ∷ refs) =
      if text_eq ref.browse_name (lit "GetRecords") then some ref.node_id else named_reference refs

  method_in : Option (List (BrowseResult NodeId)) → Option NodeId
  method_in none = none
  method_in (some []) = none
  method_in (some (result ∷ results)) = elim result.status [
    | good ↦ named_reference result.references
    | _ ↦ none
  ]

  -- `findGetRecordsMethod`: first among the components, then among all the references.
  unfoldable pub find_get_records_method : NodeId → World → Option NodeId × World
  unfolding method_in
  find_get_records_method n w =
      let (components, w1) = browse n true w in
      let (others, w2) = browse n false w1 in
      elim (method_in components) [ some m ↦ (some m, w1) | none ↦ (method_in others, w2) ]

  -- A first output that is a byte string is an unexpected type.
  payload_of : Option (Output NodeId) → Option (Payload NodeId)
  payload_of none = none
  payload_of (some (byte_string bytes)) = some Payload.unexpected
  payload_of (some (payload p)) = some p

  point_of : Option (Output NodeId) → List ℕ
  point_of (some (byte_string bytes)) = bytes
  point_of _ = []

  page_from : List (Option (Output NodeId)) → Page OpcuaLogRecord
  page_from (records ∷ point ∷ outputs) =
      Page.page (parse_log_records_data_type ua bufs (payload_of records)) (point_of point)
  page_from _ = Page.failed

  outcome_of : Option (CallResult NodeId) → Outcome
  outcome_of none = answered Page.failed
  outcome_of (some result) = elim result.status [
    | good ↦ answered (page_from result.outputs)
    | bad_continuation_point_invalid ↦ point_invalid
    | _ ↦ answered Page.failed
  ]

  method_or_standard : Option NodeId → NodeId
  method_or_standard (some m) = m
  method_or_standard none = new_numeric 0 11550

  -- The request that a `Call` is made with; all fields of a record are asked for.
  unfoldable pub request : Time → Time → ℕ → NodeId → ℕ → List ℕ → NodeId → CallRequest NodeId
  request start_time end_time min_severity n max_records point method = record {
    object_id = n;
    method_id = method;
    start_time = start_time;
    end_time = end_time;
    max_records = max_records;
    min_severity = min_severity;
    log_record_mask = 0x1F;
    continuation_point = point;
  }

  -- One `Call`, with the method that the browsing finds or the standard one.
  call_once : Time → Time → ℕ → NodeId → ℕ → List ℕ → World → Outcome × World
  call_once start_time end_time min_severity n max_records point w =
      let (found, w') = find_get_records_method n w in
      let method = method_or_standard found in
      let (result, w'') =
        call (request start_time end_time min_severity n max_records point method) w' in
      (outcome_of result, w'')

  -- After an invalid point, the call is made once more with none, and only if there was one.
  settle : Outcome → Page OpcuaLogRecord
  settle (answered got) = got
  settle point_invalid = Page.failed

  retry : (World → Outcome × World) → Bool → Outcome × World → Page OpcuaLogRecord × World
  retry again without_point (answered got, w) = (got, w)
  retry again true (point_invalid, w) = (Page.failed, w)
  retry again false (point_invalid, w) = let (outcome, w') = again w in (settle outcome, w')

  -- `callGetRecordsMethod`
  unfoldable pub call_get_records_method :
      Time → Time → ℕ → NodeId → ℕ → List ℕ → World → Page OpcuaLogRecord × World
  unfolding retry settle call_once outcome_of page_from method_or_standard payload_of point_of
  call_get_records_method start_time end_time min_severity n max_records point w =
      let once = call_once start_time end_time min_severity n max_records in
      retry (once []) (is_nil point) (once point w)

  -- `GetRecords`: `none` when the fuel for the pages of a node runs out, and an inner `none` for
  -- an error.
  unfoldable pub get_records :
      ℕ
      → OpcuaClient NodeId
      → Time
      → Time
      → ℤ
      → World
      → Option (Option (List OpcuaLogRecord) × World)
  get_records fuel c start_time end_time max_records w =
      let fetch = call_get_records_method start_time end_time (get_min_severity_value c.config) in
      let limit = share max_records (length c.log_object_ids) in
      let collected = node_loop fuel fetch limit c.log_object_ids [] w in
      if c.has_client
      then (if is_nil c.log_object_ids
          then some (none, w)
          else elim collected [ none ↦ none | some (all, w') ↦ some (some all, w') ])
      else some (none, w)
