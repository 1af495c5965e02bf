-- ===== src/Pipeline/Collected.antt =====
-- One collection of receiver/opcua/receiver.go, from the server to the consumer: scraper.go,
-- client.go, get_records.go, log_record_type.go and transformer.go together.
use opentelemetry_collector.Common.{
  ℕ, Bool-cases, inl, inr, ◌^◌, ◌<◌, ◌≡◌, refl, ap, ◌∙◌, Bool, true, ◌==◌, List, [], ◌∷◌, Option,
  none, some, length, is_nil, map, if◌then◌else◌, pos_part, All, arith,
}
use opentelemetry_collector.Client.Calls.Answers.{Server, get_records-first_of_each}
use opentelemetry_collector.Client.Discovery.{OpcuaClient, is_connected}
use opentelemetry_collector.Client.Discovery.Kept.{HasNodes}
use opentelemetry_collector.Client.Paging.{share}
use opentelemetry_collector.Client.Paging.Complete.{first_of_each}
use opentelemetry_collector.LogRecord.Codec.{LogRecordExtObj}
use opentelemetry_collector.LogRecord.Codec.RoundTrip.{IsWire}
use opentelemetry_collector.Pdata.{PdataApi}
use opentelemetry_collector.Pipeline.{
  Gopcua, services_of, calls_of, Outside, client_env, end_of_call,
}
use opentelemetry_collector.Pipeline.Answered.{connected-has_client}
use opentelemetry_collector.Receiver.{collect_and_consume, pass_on}
use opentelemetry_collector.Records.Parse.Arrays.{received}
use opentelemetry_collector.Scraper.{
  Env, Scraper, scrape, collect, collect_connected, finish_scrape,
}
use opentelemetry_collector.Severity.{get_min_severity_value}
use opentelemetry_collector.Transformer.{StdApi, transform_logs}
use opentelemetry_collector.Transformer.Attributes.{count-transform_logs}
use opentelemetry_collector.Ua.Buffers.{BufferApi}
use opentelemetry_collector.Ua.NodeIds.{NodeIdApi}
use opentelemetry_collector.Value.{Time, OpcuaLogRecord}

is_nil-length : (rs : List OpcuaLogRecord) → (length rs == 0) ≡ is_nil rs
is_nil-length [] = refl
is_nil-length (r ∷ rs) = ground arith

module _ (pdata : PdataApi) (std : StdApi) (ua : NodeIdApi) (bufs : BufferApi)
    (g : Gopcua (ua.NodeId)) (outside : Outside (pdata.Logs)) where
  open ua use {NodeId}
  open pdata use {log_record_count}

  abbrev env : Env (pdata.Logs)
  env = client_env ua bufs g outside

  -- The consumer behind a collection: it is not called if there is nothing to hand on.
  abbrev pub handed_on : Scraper → outside.World → List OpcuaLogRecord → outside.World
  handed_on s o records =
      let (clock, o') = outside.readings o in
      if is_nil records
      then o'
      else (outside.consume_logs (transform_logs pdata std s.transformer clock records) o').1

  pass_on-finish_scrape :
      (s : Scraper) (c : OpcuaClient NodeId) (w : g.World) (o : outside.World) (end_time : Time)
      (records : List OpcuaLogRecord)
      → pass_on pdata std (client_env ua bufs g outside) (
          finish_scrape pdata std
            (client_env ua bufs g outside)
            s
            end_time
            (some records, (c, w, o)))
        ≡ (record s { last_collect_time = end_time }, (c, w, handed_on s o records))
  unfolding pass_on finish_scrape
  pass_on-finish_scrape s c w o end_time records =
      let clock = (outside.readings o).0 in
      let count : (log_record_count (transform_logs pdata std s.transformer clock records) == 0)
          ≡ is_nil records =
        ap (λ (n : ℕ). n == 0) (count-transform_logs pdata std s.transformer clock records)
        ∙ is_nil-length records in
      elim (Bool-cases (is_nil records)) [ inl e ↦ rw (count, e) | inr e ↦ rw (count, e) ]

  collect_and_consume-connected :
      (s : Scraper) (c : OpcuaClient NodeId) (w : g.World) (o : outside.World)
      → s.has_client ≡ true
      → (is_connected ua (services_of g) c w).0 ≡ true
      → collect_and_consume pdata std env s (c, w, o)
        ≡ pass_on pdata std env
            (collect pdata std env s (c, (is_connected ua (services_of g) c w).1, o))
  unfolding collect_and_consume scrape collect_connected
  collect_and_consume-connected s c w o there up =
      ap
        (λ (b : Bool). pass_on pdata std env (
          if b
          then collect_connected pdata std env s (env.is_connected (c, w, o))
          else (none, s, (c, w, o))))
        there
      ∙ ap
          (λ (b : Bool).
            pass_on pdata std env
              (collect_connected pdata std env s (b, (env.is_connected (c, w, o)).1)))
          up

  -- A collection of a scraper whose client is connected and has nodes, against a server that holds
  -- records for each node, all of which fit the wire, and that sends those of the time range page
  -- by page as `Server` says, with `max_records_per_call` below 2 ^ 32: the next time range begins
  -- at the reading of the clock at which this one ends, and the consumer is handed the transforms
  -- of the conversions of the first records of each node, as many as the node's share of that
  -- limit, node after node, whatever `filter.max_log_records` is; if there are none, it is not
  -- called.
  pub collect_and_consume-first_of_each :
      (s : Scraper) (c : OpcuaClient NodeId) (w : g.World) (o : outside.World)
      (served : NodeId → List (LogRecordExtObj NodeId))
      → ((n : NodeId) → All (IsWire ua bufs) (served n))
      → Server ua bufs
          (calls_of g)
          s.last_collect_time
          (outside.now o).0
          (get_min_severity_value c.config)
          served
      → s.has_client ≡ true
      → (is_connected ua (services_of g) c w).0 ≡ true
      → HasNodes c
      → pos_part s.config.max_records_per_call < 2 ^ 32
      → let limit = share s.config.max_records_per_call (length c.log_object_ids) in
        (w' : g.World) × (collect_and_consume pdata std (client_env ua bufs g outside) s (c, w, o)
          ≡ (
            record s { last_collect_time = (outside.now o).0 },
            (
              c,
              w',
              handed_on s
                  (outside.now o).1
                  (first_of_each (λ n. map (received ua bufs) (served n)) limit c.log_object_ids),
            ),
          ))
  unfolding collect
  collect_and_consume-first_of_each s c w o served wire server there up nodes u =
      let (w', e) =
        get_records-first_of_each ua bufs (calls_of g) c s.last_collect_time (outside.now o).0
          s.config.max_records_per_call served wire server (connected-has_client ua bufs g c w up)
          nodes u (is_connected ua (services_of g) c w).1 in
      (
        w',
        collect_and_consume-connected s c w o there up
            ∙ ap
                (λ (r : Option (Option (List OpcuaLogRecord) × g.World)). pass_on pdata std env (
                  finish_scrape pdata std env s (outside.now o).0 (
                    end_of_call ua bufs g outside
                      (c, (is_connected ua (services_of g) c w).1, (outside.now o).1) r)))
                e
            ∙ pass_on-finish_scrape s c w' (outside.now o).1 (outside.now o).0 _,
      )
