-- ===== src/Pipeline/Answered.antt =====
-- Whether the calls of `GetRecords` (receiver/opcua/client.go) that the collections of
-- receiver/opcua/receiver.go make can fail.
use opentelemetry_collector.Common.{
  ℕ, ◌+◌, ◌^◌, ◌<◌, ◌≡◌, ◌≢◌, true, Bool-cases, inl, inr, List, [], none, some, length, ℤ, pos_part,
  arith,
}
use opentelemetry_collector.Client.Calls.{call_get_records_method, get_records}
use opentelemetry_collector.Client.Calls.Answers.{not_nil}
use opentelemetry_collector.Client.Discovery.{OpcuaClient, is_connected}
use opentelemetry_collector.Client.Discovery.Found.{IsReady}
use opentelemetry_collector.Client.Paging.{share}
use opentelemetry_collector.Client.Paging.Bounds.{share_pos, share-lt}
use opentelemetry_collector.Client.Paging.Termination.{Progresses, node_loop_total}
use opentelemetry_collector.Pdata.{PdataApi}
use opentelemetry_collector.Pipeline.{Gopcua, services_of, calls_of, Outside, Whole, client_env}
use opentelemetry_collector.Receiver.{start}
use opentelemetry_collector.Receiver.History.{Call, History}
use opentelemetry_collector.Scraper.{Env}
use opentelemetry_collector.Severity.{get_min_severity_value}
use opentelemetry_collector.Transformer.{StdApi}
use opentelemetry_collector.Ua.Buffers.{BufferApi}
use opentelemetry_collector.Ua.NodeIds.{NodeIdApi}
use opentelemetry_collector.Value.{Time, OpcuaLogRecord}

module _ (ua : NodeIdApi) (bufs : BufferApi) (g : Gopcua (ua.NodeId)) where
  open ua use {NodeId}

  -- Every page of the server that has a continuation point has a record, if one is asked for.
  abbrev pub ServerProgresses : Type 0
  ServerProgresses =
      (start end : Time) (min_severity : ℕ) (n : NodeId)
      → Progresses (call_get_records_method ua bufs (calls_of g) start end min_severity n)

  -- What `GetRecords` of a client that is ready ends with, whatever the pages are.
  pub get_records_total :
      ServerProgresses
      → (c : OpcuaClient NodeId) (start end : Time) (max_records : ℤ) (w : g.World)
      → IsReady ua (services_of g) c
      → pos_part max_records < 2 ^ 32
      → (r : List OpcuaLogRecord × g.World) × (get_records ua bufs
            (calls_of g)
            (share max_records (length c.log_object_ids) + 1)
            c
            start
            end
            max_records
            w
          ≡ some (some (r.0), r.1))
  unfolding get_records
  get_records_total p c start end max_records w (there, nodes) u =
      let (r, e) =
        node_loop_total
          (call_get_records_method ua bufs (calls_of g) start end (get_min_severity_value c.config))
          (share max_records (length c.log_object_ids))
          (share_pos max_records (length c.log_object_ids))
          (share-lt max_records (length c.log_object_ids) u) (p start end _) c.log_object_ids []
          w in
      (r, rw (there, not_nil c.log_object_ids nodes, e))

  pub connected-has_client :
      (c : OpcuaClient NodeId) (w : g.World)
      → (is_connected ua (services_of g) c w).0 ≡ true
      → c.has_client ≡ true
  unfolding is_connected
  connected-has_client c w h = elim (Bool-cases c.has_client) [
    | inl there ↦ there
    | inr gone ↦ ground (arith, gone, h)
  ]

-- The call ended with no error.
abbrev pub IsAnswered : Call → Type 0
IsAnswered c = c.result ≢ none

module _ (pdata : PdataApi) (std : StdApi) (ua : NodeIdApi) (bufs : BufferApi)
    (g : Gopcua (ua.NodeId)) (outside : Outside (pdata.Logs)) where
  open ua use {NodeId}
  open pdata use {Logs, log_record_count}

  abbrev env : Env Logs
  env = client_env ua bufs g outside

  abbrev pub Logged : Type 0
  Logged = Whole ua bufs g outside × History Logs
