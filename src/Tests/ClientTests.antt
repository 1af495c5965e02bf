-- ===== src/Tests/ClientTests.antt =====
-- Runs of receiver/opcua/client.go against small servers.
use opentelemetry_collector.Common.{
  is_nil, ◌≢◌, ℕ, ◌+◌, ◌≡◌, ◌↔◌, refl, sym, inl, true, ltb, List, [], ◌∷◌, none, some, take, drop,
  length-drop, map, All, pos, lit, text_eq, arith, if◌then◌else◌,
}
use mathlib.Core.Path.{subst}
use opentelemetry_collector.Config.{create_default_config}
use opentelemetry_collector.Client.Calls.{
  bad_continuation_point_invalid, call_get_records_method, CallServices, request, get_records,
}
use opentelemetry_collector.Client.Calls.Answers.{sends, Server, get_records-first_of_each}
use opentelemetry_collector.Client.Calls.Answers.Restart.{Forgets, page_loop-Forgets}
use opentelemetry_collector.Client.Paging.Restart.{Repeated}
use opentelemetry_collector.Client.Discovery.{
  Services, OpcuaClient, new_opcua_client, translate_browse_path_to_node_id, verify_node_exists,
  discover_paths, connect,
}
use opentelemetry_collector.Client.Discovery.Found.{
  results_of, Then, IsReady, discover_paths-results_of, connect-IsReady,
}
use opentelemetry_collector.Client.Endpoints.{
  Endpoint, sign, matches, first_with, falls_back, wanted_policy, wanted_mode, same_mode,
  select_endpoint,
}
use opentelemetry_collector.Client.Endpoints.Choice.{
  Chosen, select_endpoint-Chosen, select_endpoint-none_iff,
}
use opentelemetry_collector.Client.Paging.{share, page_loop}
use opentelemetry_collector.Client.Paging.Complete.{first_of_each}
use opentelemetry_collector.LogRecord.Codec.{LogRecordExtObj}
use opentelemetry_collector.LogRecord.Codec.RoundTrip.{IsWire}
use opentelemetry_collector.Records.Parse.Arrays.{received}
use opentelemetry_collector.Severity.{get_min_severity_value}
use opentelemetry_collector.Tests.WireTests.{sample, sample-IsWire}
use opentelemetry_collector.Ua.Concrete.{Node, number, node_ids, buffers}
use opentelemetry_collector.Value.{Time}

abbrev pub signed : Endpoint
signed = record { security_policy_uri = []; security_mode = sign }

-- Without security configured, the only endpoint is taken although it signs.
signed-selected : select_endpoint create_default_config (signed ∷ []) ≡ some signed
unfolding select_endpoint first_with matches falls_back wanted_policy wanted_mode same_mode
    create_default_config lit text_eq
signed-selected = refl

select_endpoint-Chosen_example : Chosen create_default_config signed (signed ∷ [])
select_endpoint-Chosen_example =
    select_endpoint-Chosen create_default_config (signed ∷ []) signed signed-selected

select_endpoint-none_iff_example :
    (select_endpoint create_default_config (signed ∷ []) ≡ none) ↔ ((signed ∷ []) ≡ [])
select_endpoint-none_iff_example = select_endpoint-none_iff create_default_config (signed ∷ [])

-- A server that has one endpoint, and says yes to everything.
abbrev pub services : Services Node
services = record {
  World = Unit {0};
  get_endpoints = λ url w. (some (signed ∷ []), w);
  new_client = λ config ep w. (true, w);
  connect_client = λ w. (true, w);
  close_client = λ w. (true, w);
  is_up = λ w. (true, w);
  read_node_class = λ n w. (some (0 ∷ []), w);
}

verify-yes : (n : Node) (w : Unit {0}) → (verify_node_exists node_ids services n w).0 ≡ true
unfolding verify_node_exists
verify-yes n w = refl

discover_paths-results_of_example :
    (discover_paths node_ids services (lit "ServerLog" ∷ []) tt).0
    ≡ results_of (translate_browse_path_to_node_id node_ids) (λ n. true) (lit "ServerLog" ∷ [])
discover_paths-results_of_example =
    discover_paths-results_of node_ids services (λ n. true) verify-yes (lit "ServerLog" ∷ []) tt

abbrev fresh_client : OpcuaClient Node
fresh_client = new_opcua_client Node create_default_config

connect-IsReady_example :
    Then node_ids services (IsReady node_ids services) (connect node_ids services fresh_client tt)
connect-IsReady_example = connect-IsReady node_ids services fresh_client tt

abbrev pub ready : OpcuaClient Node
ready = record {
  config = create_default_config;
  has_client = true;
  log_object_ids = number 0 2042 ∷ [];
}

-- The number of records that the server sends.
abbrev pub few_of : ℕ → ℕ
few_of asked = if ltb 0 asked then 1 else 0

-- A server that holds one record for each node.
abbrev pub one_record : Node → List (LogRecordExtObj Node)
one_record n = sample ∷ []

abbrev pub call_services : CallServices Node
call_services = record {
  World = Unit {0};
  browse = λ n components w. (none, w);
  call =
      λ req w. (some (sends node_ids buffers (take (few_of req.max_records) (sample ∷ [])) []), w);
}

pub All-IsWire : (n : Node) → All (IsWire node_ids buffers) (one_record n)
All-IsWire n = (sample-IsWire, tt)

-- No continuation point but the empty one, which stands for the start.
pub server :
    (start end : Time) (min_severity : ℕ)
    → Server node_ids buffers call_services start end min_severity one_record
unfolding request
server start end min_severity = record {
  At = λ n point place. place ≡ 0;
  at_start = λ n. refl;
  size = λ n asked place. few_of asked;
  next = λ n asked place. [];
  answers = λ n asked place point method w at.
      subst
        (λ (k : ℕ).
          some (sends node_ids buffers (take (few_of asked) (sample ∷ [])) [])
          ≡ some (sends node_ids buffers (take (few_of asked) (drop k (sample ∷ []))) []))
        (sym at) refl;
  few = λ n asked place. ground arith;
  goes_on = λ n asked place h. inl (refl, ground (arith, length-drop place (sample ∷ [])));
}

get_records-first_of_each_example :
    let limit = share (pos 1000) 1 in
    (w : Unit {0}) × (get_records node_ids buffers call_services
        (limit + 1)
        ready
        (pos 0)
        (pos 9)
        (pos 1000)
        tt
      ≡ some (
        some (
            first_of_each
              (λ (n : Node). map (received node_ids buffers) (one_record n))
              limit
              (number 0 2042 ∷ [])),
        w,
      ))
get_records-first_of_each_example =
    get_records-first_of_each node_ids buffers call_services ready (pos 0) (pos 9) (pos 1000)
      one_record All-IsWire (server (pos 0) (pos 9) (get_min_severity_value create_default_config))
      refl (λ e. cc) (omega arith) tt

-- A server that sends one record, and forgets its continuation point.
abbrev forgetful : CallServices Node
forgetful = record {
  World = Unit {0};
  browse = λ n components w. (none, w);
  call = λ req w. (
    some (
        if is_nil req.continuation_point
        then sends node_ids buffers (sample ∷ []) (1 ∷ [])
        else record { status = bad_continuation_point_invalid; outputs = [] }),
    w,
  );
}

forgetful-Forgets :
    Forgets node_ids buffers forgetful (pos 0) (pos 9) 101 (number 0 2042) (sample ∷ [])
unfolding request
forgetful-Forgets = record {
  next = 1 ∷ [];
  goes_on = λ e. cc;
  sends_first = λ asked method w. refl;
  forgets = λ asked point method w h. forgotten point h;
}
  where
    forgotten :
        (point : List ℕ)
        → point ≢ []
        → some (
            if is_nil point
            then sends node_ids buffers (sample ∷ []) (1 ∷ [])
            else record { status = bad_continuation_point_invalid; outputs = [] })
          ≡ some (record { status = bad_continuation_point_invalid; outputs = [] })
    forgotten [] h = absurd (h refl)
    forgotten (c ∷ point) h = refl

page_loop-Forgets_example : Repeated (map (received node_ids buffers) (sample ∷ [])) 3 0 [] (
    page_loop
      (3 + 1)
      (call_get_records_method node_ids buffers forgetful (pos 0) (pos 9) 101 (number 0 2042))
      3
      0
      []
      []
      tt)
page_loop-Forgets_example =
    page_loop-Forgets node_ids buffers forgetful (pos 0) (pos 9) 101 (number 0 2042) (sample ∷ [])
      (sample-IsWire, tt) forgetful-Forgets 3 (omega arith) (omega arith) tt
