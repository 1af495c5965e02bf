-- ===== src/Tests/PipelineTests.antt =====
-- Runs of the receiver over its own client.
use opentelemetry_collector.Common.{
  text_eq, ◌≡◌, ◌≢◌, is_nil, false, ◌+◌, refl, true, ℕ, Bool, [], ◌∷◌, List, Option, none, some,
  take, drop, take-append-drop, map, pos, lookup, ◌++◌, arith,
}
use opentelemetry_collector.Common.{lit}
use opentelemetry_collector.Client.Calls.{get_records, call_get_records_method}
use opentelemetry_collector.Client.Paging.{node_loop, page_loop}
use opentelemetry_collector.Transformer.{transform_logs}
use opentelemetry_collector.Records.Parse.{parse_log_records_data_type}
use opentelemetry_collector.Scraper.{start_scraper, finish_scrape}
use opentelemetry_collector.Receiver.{pass_on}
use opentelemetry_collector.Client.Endpoints.{
  select_endpoint, first_with, matches, falls_back, wanted_policy, wanted_mode, same_mode,
}
use opentelemetry_collector.Client.Discovery.{
  connect, discover_log_objects, discover_paths, translate_browse_path_to_node_id,
  resolve_browse_path, is_known_path, try_default_server_log, verify_node_exists,
}
use opentelemetry_collector.Client.Discovery.{OpcuaClient, new_opcua_client, is_connected}
use opentelemetry_collector.Client.Paging.{share}
use opentelemetry_collector.Client.Paging.Complete.{first_of_each}
use opentelemetry_collector.Config.{create_default_config}
use opentelemetry_collector.LogRecord.Codec.{encode}
use opentelemetry_collector.LogRecord.Hex.{put_little}
use opentelemetry_collector.LogRecord.Nodes.{write_node_id}
use opentelemetry_collector.LogRecord.TraceId.{write_trace_id}
use opentelemetry_collector.LogRecord.Variants.{variant_image, write_variant_value}
use opentelemetry_collector.LogRecord.Wire.{◌>>◌}
use opentelemetry_collector.Pdata.{View}
use opentelemetry_collector.Pdata.Concrete.{pdata}
use opentelemetry_collector.Pipeline.{Gopcua, Outside, client_env, services_of}
use opentelemetry_collector.Pipeline.Attributes.{get-parsed}
use opentelemetry_collector.Pipeline.Collected.{handed_on, collect_and_consume-first_of_each}
use opentelemetry_collector.Pipeline.Healthy.{IsHealthy, Reachable-IsHealthy}
use opentelemetry_collector.Pipeline.Order.{parsed, attribute_at, get-parsed_reordered}
use opentelemetry_collector.Common.{Dict}
use opentelemetry_collector.Value.{Value, OpcuaLogRecord}
use mathlib.Core.List.{Permᴰ}
use opentelemetry_collector.Receiver.{
  LogsReceiver, collect_and_consume, create_logs_receiver, created, start,
}
use opentelemetry_collector.Receiver.Delivery.{nothing_yet}
use opentelemetry_collector.Receiver.History.{logged}
use opentelemetry_collector.Receiver.Life.{
  Life, at_phase, testing, asking, selecting, handing, asked, handed, Reachable, here, after,
  launched, test_up, ask, hand_on, tick,
}
use opentelemetry_collector.Value.{Time}
use opentelemetry_collector.Records.Parse.{
  raw, parse_log_record_from_extension_object, parse_extension_object_array,
}
use opentelemetry_collector.Records.Parse.Arrays.{sent, received}
use opentelemetry_collector.Records.Parse.Truncated.{parse_extension_object_array-truncated}
use opentelemetry_collector.Scraper.{Env, Scraper, new_scraper}
use opentelemetry_collector.Severity.{get_min_severity_value}
use opentelemetry_collector.Tests.CallTests.{empty_services, empty-Progresses}
use opentelemetry_collector.Tests.ClientTests.{
  services, ready, one_record, call_services, server, All-IsWire,
}
use opentelemetry_collector.Tests.ReceiverTests.{receiver, receiver-created}
use opentelemetry_collector.Tests.RecordTests.{std}
use opentelemetry_collector.Tests.WireTests.{sample, sample-IsWire}
use opentelemetry_collector.Transformer.{transform_log_record}
use opentelemetry_collector.Transformer.Attributes.{attribute_of, source_attribute}
use opentelemetry_collector.Ua.Concrete.{Node, number, node_ids, buffers}
use opentelemetry_collector.Ua.Concrete.Local.{buffers-LocalReads}
use opentelemetry_collector.Client.Calls.{CallRequest, CallResult}

-- A consumer that takes everything, and a clock that counts its readings.
abbrev outside : Outside (pdata.Logs)
outside = record {
  World = ℕ;
  now = λ w. (pos w, w + 1);
  readings = λ w. ((λ i. pos w), w);
  consume_logs = λ logs w. (true, w);
}

-- Everything of gopcua with no state: one endpoint, every node there, the given answers to calls.
abbrev gopcua_of : (CallRequest Node → Option (CallResult Node)) → Gopcua Node
gopcua_of answer = record {
  World = Unit {0};
  get_endpoints = services.get_endpoints;
  new_client = services.new_client;
  connect_client = services.connect_client;
  close_client = services.close_client;
  is_up = services.is_up;
  read_node_class = services.read_node_class;
  browse = λ n components w. (none, w);
  call = λ req w. (answer req, w);
}

abbrev empty_gopcua : Gopcua Node
empty_gopcua = gopcua_of (λ req. (empty_services.call req tt).0)

abbrev full_gopcua : Gopcua Node
full_gopcua = gopcua_of (λ req. (call_services.call req tt).0)

abbrev fresh_whole : OpcuaClient Node × Unit {0} × ℕ
fresh_whole = (new_opcua_client Node create_default_config, tt, 0)

abbrev env : Env (pdata.Logs)
env = client_env node_ids buffers empty_gopcua outside

abbrev LoggedWorld : Type 0
LoggedWorld = (logged env).World

abbrev begun : Bool × LogsReceiver × LoggedWorld
begun = start pdata std (logged env) receiver (fresh_whole, nothing_yet pdata std env)

abbrev first_asked : Time × Option (List OpcuaLogRecord) × LoggedWorld
first_asked = asked pdata std (logged env) begun.1 begun.2

-- `Start`, a first collection, and a second one that has the result of `GetRecords` in hand.
abbrev after_first : LogsReceiver × LoggedWorld
after_first = handed pdata std (logged env) begun.1 first_asked.0 first_asked.1 first_asked.2

abbrev second_asked : Time × Option (List OpcuaLogRecord) × LoggedWorld
second_asked = asked pdata std (logged env) after_first.0 after_first.1

abbrev asked_twice : Life LoggedWorld
asked_twice = at_phase (handing second_asked.0 second_asked.1) after_first.0 second_asked.2 false

abbrev Reached : Life LoggedWorld → Type 0
Reached = Reachable pdata std (logged env) receiver (fresh_whole, nothing_yet pdata std env)

begun-ok : (begun.0 ≡ true) × (begun.1.scraper.has_client ≡ true)
unfolding start start_scraper connect select_endpoint first_with matches text_eq wanted_policy
    new_opcua_client create_default_config lit falls_back same_mode discover_log_objects
    discover_paths translate_browse_path_to_node_id resolve_browse_path is_known_path
    try_default_server_log verify_node_exists wanted_mode is_connected new_scraper
begun-ok = (refl, refl)

begun-up : ((logged env).is_connected begun.2).0 ≡ true
unfolding start start_scraper connect select_endpoint first_with matches text_eq wanted_policy
    new_opcua_client create_default_config lit falls_back same_mode discover_log_objects
    discover_paths translate_browse_path_to_node_id resolve_browse_path is_known_path
    try_default_server_log verify_node_exists wanted_mode is_connected new_scraper
begun-up = refl

first-there : after_first.0.scraper.has_client ≡ true
unfolding start start_scraper connect select_endpoint first_with matches text_eq wanted_policy
    new_opcua_client create_default_config lit falls_back same_mode discover_log_objects
    discover_paths translate_browse_path_to_node_id resolve_browse_path is_known_path
    try_default_server_log verify_node_exists wanted_mode is_connected new_scraper pass_on
    finish_scrape get_records node_loop page_loop share call_get_records_method transform_logs
    parse_log_records_data_type
first-there = refl

first-up : ((logged env).is_connected after_first.1).0 ≡ true
unfolding start start_scraper connect select_endpoint first_with matches text_eq wanted_policy
    new_opcua_client create_default_config lit falls_back same_mode discover_log_objects
    discover_paths translate_browse_path_to_node_id resolve_browse_path is_known_path
    try_default_server_log verify_node_exists wanted_mode is_connected new_scraper pass_on
    finish_scrape get_records node_loop page_loop share call_get_records_method transform_logs
    parse_log_records_data_type
first-up = refl

launched-Reached : Reached (at_phase testing begun.1 begun.2 false)
launched-Reached =
    after _ _ here (launched receiver (fresh_whole, nothing_yet pdata std env) false begun-ok.0)

after_first-Reached : Reached (at_phase selecting after_first.0 after_first.1 false)
after_first-Reached =
    let tested : Reached (at_phase asking begun.1 begun.2 false) =
      after _ _ launched-Reached (test_up begun.1 begun.2 false begun-ok.1 begun-up) in
    let has_asked : Reached
        (at_phase (handing first_asked.0 first_asked.1) begun.1 first_asked.2 false) =
      after _ _ tested (ask begun.1 begun.2 false) in
    after _ _ has_asked (hand_on begun.1 first_asked.2 false first_asked.0 first_asked.1)

asked_twice-Reached : Reached asked_twice
asked_twice-Reached =
    let ticked : Reached (at_phase testing after_first.0 after_first.1 false) =
      after _ _ after_first-Reached (tick after_first.0 after_first.1 false) in
    let tested : Reached (at_phase asking after_first.0 after_first.1 false) =
      after _ _ ticked (test_up after_first.0 after_first.1 false first-there first-up) in
    after _ _ tested (ask after_first.0 after_first.1 false)

Reachable-IsHealthy_example :
    IsHealthy pdata std node_ids buffers empty_gopcua outside create_default_config asked_twice
unfolding create_default_config
Reachable-IsHealthy_example =
    Reachable-IsHealthy pdata std node_ids buffers empty_gopcua outside create_default_config true
      receiver tt 0 asked_twice empty-Progresses (omega arith) receiver-created asked_twice-Reached

abbrev scraper : Scraper
scraper = record (new_scraper create_default_config) { has_client = true }

ready-is_up : (is_connected node_ids (services_of full_gopcua) ready tt).0 ≡ true
unfolding is_connected
ready-is_up = refl

collect_and_consume-first_of_each_example :
    let limit = share scraper.config.max_records_per_call 1 in
    (w : Unit {0}) × (collect_and_consume pdata std
        (client_env node_ids buffers full_gopcua outside)
        scraper
        (ready, tt, 5)
      ≡ (
        record scraper { last_collect_time = pos 5 },
        (
          ready,
          w,
          handed_on pdata std node_ids buffers full_gopcua outside scraper 6 (
              first_of_each
                (λ (n : Node). map (received node_ids buffers) (one_record n))
                limit
                (number 0 2042 ∷ [])),
        ),
      ))
unfolding new_scraper create_default_config
collect_and_consume-first_of_each_example =
    collect_and_consume-first_of_each pdata std node_ids buffers full_gopcua outside scraper ready
      tt 5 one_record All-IsWire
      (server scraper.last_collect_time (pos 5) (get_min_severity_value create_default_config)) refl
      ready-is_up (λ e. cc) (omega arith)

abbrev sample_bytes : List ℕ
sample_bytes = (encode node_ids buffers sample).0

more_bytes : is_nil (drop 40 sample_bytes) ≡ false
unfolding encode ◌>>◌ write_variant_value write_trace_id write_node_id put_little
more_bytes = refl

has_bytes : (bs : List ℕ) → is_nil bs ≡ false → bs ≢ []
has_bytes [] h e = cc
has_bytes (b ∷ bs) h e = cc

parse_extension_object_array-truncated_example :
    parse_extension_object_array node_ids buffers (
      map (sent node_ids buffers) (sample ∷ [])
      ++ (some (raw (take 40 sample_bytes)) ∷ map (sent node_ids buffers) (sample ∷ [])))
    ≡ map (received node_ids buffers) (sample ∷ []) ++ map (received node_ids buffers) (sample ∷ [])
parse_extension_object_array-truncated_example =
    parse_extension_object_array-truncated node_ids buffers (sample ∷ []) (sample ∷ []) sample
      (take 40 sample_bytes) (drop 40 sample_bytes) buffers-LocalReads (sample-IsWire, tt)
      (sample-IsWire, tt) sample-IsWire (take-append-drop 40 sample_bytes)
      (has_bytes (drop 40 sample_bytes) more_bytes)

get-parsed_example :
    (o : OpcuaLogRecord) × (parse_log_record_from_extension_object node_ids buffers
        (raw (encode node_ids buffers sample).0)
      ≡ some o)
    × (pdata.get
          (View.attributes (transform_log_record pdata std (pos 5) o pdata.new_log_record))
          (b'k' ∷ [])
        ≡ elim (lookup (b'k' ∷ []) sample.additional_data) [
          | none ↦ source_attribute pdata std o (b'k' ∷ [])
          | some v ↦ some (attribute_of pdata std (variant_image v))
        ])
unfolding lookup text_eq
get-parsed_example =
    get-parsed node_ids buffers pdata std (pos 5) sample (b'k' ∷ []) sample-IsWire
      (refl, (refl, tt)) (λ e. cc)

-- The factory makes the receiver that `newLogsReceiver` makes.
factory_created : create_logs_receiver create_default_config true ≡ created receiver
unfolding create_logs_receiver
factory_created = receiver-created

-- The entries of the sample's additional data the other way round.
abbrev turned : Dict Value
turned = (b'u' ∷ [], Value.uint16 9) ∷ (b'k' ∷ [], Value.int 5) ∷ []

get-parsed_reordered_example :
    (o o' : OpcuaLogRecord) × (parsed node_ids buffers pdata std sample ≡ some o)
    × (parsed node_ids buffers pdata std (record sample { additional_data = turned }) ≡ some o')
    × (attribute_at node_ids buffers pdata std (pos 5) o' (b'u' ∷ [])
        ≡ attribute_at node_ids buffers pdata std (pos 5) o (b'u' ∷ []))
unfolding lookup text_eq
get-parsed_reordered_example =
    get-parsed_reordered node_ids buffers pdata std (pos 5) sample turned (b'u' ∷ []) sample-IsWire
      (refl, (refl, tt)) (Permᴰ.swap refl refl)
