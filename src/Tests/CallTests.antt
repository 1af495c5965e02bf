-- ===== src/Tests/CallTests.antt =====
-- Runs of receiver/opcua/client.go and get_records.go with their calls noted or interleaved.
use opentelemetry_collector.Common.{ℕ, Option, ◌+◌, ◌≡◌, List, [], ◌∷◌, none, some, All, pos, arith}
use opentelemetry_collector.Config.{create_default_config}
use opentelemetry_collector.Client.Calls.{
  call_get_records_method, CallServices, CallRequest, good, byte_string, payload,
  find_get_records_method, request, get_records,
}
use opentelemetry_collector.Client.Calls.Asked.{noting, IsAsked, get_records-IsAsked}
use opentelemetry_collector.Client.Paging.Termination.{Progresses}
use opentelemetry_collector.Records.Parse.{Payload, parse_log_records_data_type}
use opentelemetry_collector.Client.Paging.{share}
use opentelemetry_collector.Severity.{get_min_severity_value}
use opentelemetry_collector.Ua.Concrete.{Node, node_ids, buffers}
use opentelemetry_collector.Value.{Time, OpcuaLogRecord}
use opentelemetry_collector.Tests.ClientTests.{ready}

-- A server whose pages are all empty.
abbrev pub empty_services : CallServices Node
empty_services = record {
  World = Unit {0};
  browse = λ n components w. (none, w);
  call = λ req w. (
    some (record {
      status = good;
      outputs = some (payload Payload.nothing) ∷ some (byte_string []) ∷ [];
    }),
    w,
  );
}

pub empty-Progresses :
    (start end : Time) (min_severity : ℕ) (n : Node)
    → Progresses (call_get_records_method node_ids buffers empty_services start end min_severity n)
unfolding call_get_records_method find_get_records_method request parse_log_records_data_type
empty-Progresses start end min_severity n asked point w records next e more h = absurd (more (cc))

noting-Progresses :
    (start end : Time) (min_severity : ℕ) (n : Node)
    → Progresses
        (call_get_records_method node_ids buffers (noting empty_services) start end min_severity n)
unfolding call_get_records_method find_get_records_method request parse_log_records_data_type
noting-Progresses start end min_severity n asked point w records next e more h = absurd (more (cc))

get_records-IsAsked_example :
    let limit = share (pos 1000) 1 in
    (result : Option (List OpcuaLogRecord)) × (w : Unit {0} × List (CallRequest Node))
    × (get_records node_ids buffers
          (noting empty_services)
          (limit + 1)
          ready
          (pos 0)
          (pos 9)
          (pos 1000)
          (tt, [])
        ≡ some (result, w))
    × All (IsAsked node_ids buffers empty_services ready (pos 0) (pos 9) (pos 1000)) w.1
get_records-IsAsked_example =
    get_records-IsAsked node_ids buffers empty_services ready (pos 0) (pos 9) (pos 1000)
      (noting-Progresses (pos 0) (pos 9) (get_min_severity_value create_default_config))
      (omega arith) tt
