-- ===== src/Tests/MockTests.antt =====
-- Runs of receiver/opcua/testdata/mock_server.go, mock_client.go and generator.go.
use opentelemetry_collector.Common.{
  ℕ, ◌==◌, List, ◌≡◌, refl, true, false, [], ◌∷◌, ◌+◌, ◌&&◌, not, some, if◌then◌else◌, length, map,
  pos, ltb_ℤ, lookup, lit, text_eq, arith,
}
use mathlib.Core.Option
use opentelemetry_collector.LogRecord.Hex.{hex_padded}
use opentelemetry_collector.Mock.Server.{
  new_mock_server, start, stop, add_log_record, add_log_records, clear_log_records,
  get_log_records_count, MockServer, is_running, endpoint_of, passes, filter_records,
  get_filtered_records,
}
use opentelemetry_collector.Client.Calls.{get_records}
use opentelemetry_collector.Client.Calls.Mocked.{handler_services, get_records-handler_services}
use opentelemetry_collector.Client.Paging.{share}
use opentelemetry_collector.Client.Paging.Complete.{first_of_each}
use opentelemetry_collector.Config.{create_default_config}
use opentelemetry_collector.Mock.Client.{
  MockClient, new_mock_client, disconnect, is_connected, connect, error, parse_record_map,
  get_records_with_severity, to_uint32,
}
use opentelemetry_collector.Mock.Client.Agreement.{parse_log_record_from_map-parse_record_map}
use opentelemetry_collector.Mock.Client.Pages.{
  fetched_shown, get_records_with_severity-get_filtered_records,
}
use opentelemetry_collector.Mock.Client.RoundTrip.{shown, parse_record_map-record_map}
use opentelemetry_collector.Mock.Generator.{
  Draws, IsDrawn, generate_log_record_with_details, generate_sample_log_record,
  generate_sample_log_records,
}
use opentelemetry_collector.Mock.Generator.Traces.{
  AreComplete, generate_sample_log_records-AreComplete,
}
use opentelemetry_collector.Mock.Handler.{record_map}
use opentelemetry_collector.Pdata.Concrete.{pdata}
use opentelemetry_collector.Records.Parse.{parse_log_record_from_map, field_at}
use opentelemetry_collector.Severity.{get_min_severity_value}
use opentelemetry_collector.Tests.ClientTests.{ready}
use opentelemetry_collector.Ua.Concrete.{Node, number, node_ids, buffers}
use opentelemetry_collector.Value.{Value, Fields, OpcuaLogRecord, field, done}
use opentelemetry_collector.Tests.RecordTests.{std, opcua_record}

-- A server that has been started cannot be started again before it is stopped.
started_twice : (start (start (new_mock_server [])).0).1 ≡ false
unfolding start new_mock_server
started_twice = refl

restarted : (start (stop (start (new_mock_server [])).0)).1 ≡ true
unfolding start stop new_mock_server
restarted = refl

counted :
    get_log_records_count (
      add_log_records
        (add_log_record (clear_log_records (new_mock_server [])) opcua_record)
        (opcua_record ∷ opcua_record ∷ []))
    ≡ 3
unfolding get_log_records_count add_log_records add_log_record clear_log_records new_mock_server
counted = refl

named : endpoint_of (new_mock_server (lit "opc.tcp://host")) ≡ lit "opc.tcp://host"
unfolding endpoint_of new_mock_server lit
named = refl

-- A client connects once to a server that runs, and again after it has disconnected.
abbrev running_server : MockServer
running_server = record { endpoint = []; records = opcua_record ∷ []; running = true }

connected_twice :
    let c = (connect running_server new_mock_client).1 in
    ((connect running_server c).0 ≡ false)
    × ((connect running_server (disconnect c)).0 ≡ true)
    × (is_connected (disconnect c) ≡ false)
    × (is_running running_server ≡ true)
unfolding connect disconnect is_connected new_mock_client is_running
connected_twice = (refl, refl, refl, refl)

abbrev traced_record : OpcuaLogRecord
traced_record = record opcua_record { trace_id = b'a' ∷ []; trace_flags = 1 }

parse_record_map-record_map_example :
    parse_record_map (record_map traced_record) ≡ shown traced_record
unfolding lookup
parse_record_map-record_map_example = parse_record_map-record_map traced_record (refl, tt)

-- A map with a severity alone.
abbrev sparse : Fields
sparse = field (lit "Severity") (Value.uint16 700) done

parse_log_record_from_map-parse_record_map_example :
    parse_log_record_from_map node_ids sparse ≡ parse_record_map sparse
unfolding field_at lit text_eq
parse_log_record_from_map-parse_record_map_example =
    parse_log_record_from_map-parse_record_map node_ids sparse refl refl

abbrev connected_client : MockClient
connected_client = record { connected = true }

get_records_with_severity-get_filtered_records_example :
    get_records_with_severity Node
      (λ vs. some vs)
      running_server
      connected_client
      (pos 0)
      (pos 9)
      (pos 10)
      101
      []
    ≡ (if true && not (ltb_ℤ (pos 9) (pos 0))
        then fetched_shown
            (get_filtered_records running_server (pos 0) (pos 9) (to_uint32 (pos 10)) 101 [])
        else error)
unfolding lookup
get_records_with_severity-get_filtered_records_example =
    get_records_with_severity-get_filtered_records Node (λ vs. some vs) (λ vs. refl) running_server
      connected_client (pos 0) (pos 9) (pos 10) 101 [] ((refl, tt), tt)

few_records :
    length (
      filter_records
        (pos 0)
        (pos 9)
        (get_min_severity_value create_default_config)
        running_server.records)
    ≡ 1
unfolding filter_records passes get_min_severity_value create_default_config lit text_eq
few_records = refl

get_records-handler_services_example :
    let limit = share (pos 1000) 1 in
    get_records node_ids buffers
      (handler_services node_ids (λ vs. some vs) running_server)
      (limit + 1)
      ready
      (pos 0)
      (pos 9)
      (pos 1000)
      tt
    ≡ some (
      some (
          first_of_each
            (λ (n : Node). map shown (
              filter_records
                (pos 0)
                (pos 9)
                (get_min_severity_value create_default_config)
                running_server.records))
            limit
            (number 0 2042 ∷ [])),
      tt,
    )
unfolding lookup
get_records-handler_services_example =
    get_records-handler_services node_ids buffers (λ vs. some vs) (λ vs. refl) running_server ready
      (pos 0) (pos 9) (pos 1000) ((refl, tt), tt) (omega (arith, few_records)) refl refl (λ e. cc)
      (omega arith)

-- What is drawn for the record at each place: all but the first are sampled.
abbrev drawn : ℕ → Draws
drawn i = record {
  severity = 7;
  source = 4;
  now = pos 1000000000;
  seconds = 1;
  message = 0;
  trace_id = 258;
  span_id = 3;
  trace_flags = if i == 0 then 0 else 1;
}

drawn-IsDrawn : (i : ℕ) → IsDrawn (drawn i)
drawn-IsDrawn i = record {
  severity = omega arith;
  source = omega arith;
  seconds = omega arith;
  message = omega arith;
  trace_id = omega arith;
  span_id = omega arith;
  trace_flags = ground arith;
}

generate_sample_log_records-AreComplete_example :
    (rs : List OpcuaLogRecord) × (generate_sample_log_records drawn 2 ≡ some rs)
    × (length rs ≡ 2)
    × AreComplete pdata std drawn 0 rs
generate_sample_log_records-AreComplete_example =
    generate_sample_log_records-AreComplete pdata std drawn 2 drawn-IsDrawn

-- The most severe value of the table, in a sampled record.
generated :
    Option.map
      (λ (r : OpcuaLogRecord). r.severity + r.trace_flags)
      (generate_sample_log_record 1 (drawn 1))
    ≡ some 501
unfolding generate_sample_log_record
generated = refl

detailed :
    let r = generate_log_record_with_details (pos 5) 275 (lit "up") (lit "Pump") 10 11 in
    (length r.trace_id ≡ 32) × (length r.span_id ≡ 16) × (r.trace_flags ≡ 1)
unfolding generate_log_record_with_details hex_padded
detailed = (refl, refl, refl)
