-- ===== src/Client/Calls/Mocked.antt =====
-- `GetRecords` of receiver/opcua/client.go against the call handler of
-- receiver/opcua/testdata/mock_server.go.
use opentelemetry_collector.Common.{
  ℕ, ◌+◌, ◌^◌, ◌<◌, ◌≡◌, ◌≢◌, refl, ap, ◌∙◌, true, false, List, [], ◌∷◌, Option, none, some, length,
  length-drop, take, drop, map, map-take, map-drop, length-map, inl, inr, All, ℤ, ltb_ℤ, pos_part,
  arith,
}
use opentelemetry_collector.Client.Calls.{
  CallServices, CallRequest, CallResult, Outcome, answered, find_get_records_method, call_once,
  outcome_of, page_from, payload_of, point_of, method_or_standard, method_in, retry, request,
  call_get_records_method, get_records,
}
use opentelemetry_collector.Client.Calls.Answers.{not_nil}
use opentelemetry_collector.Client.Discovery.{OpcuaClient}
use opentelemetry_collector.Client.Paging.{Page, page, failed, share}
use opentelemetry_collector.Client.Paging.Bounds.{share_pos, share-lt}
use opentelemetry_collector.Client.Paging.Complete.{
  Answers, Serves, first_of_each, node_loop-first_of_each,
}
use opentelemetry_collector.Mock.Client.Agreement.{parse_log_record_from_map-parse_record_map}
use opentelemetry_collector.Mock.Client.Keys.{message_no_dict, no_source_node}
use opentelemetry_collector.Mock.Client.Pages.{HasDistinct, get_filtered_records-HasDistinct}
use opentelemetry_collector.Mock.Client.RoundTrip.{shown, parse_record_map-record_map}
use opentelemetry_collector.Mock.Handler.{
  HoldsSlices, Argument, date_time, uint32, uint16, Handled, returned, panicked, record_map,
  convert_records_to_variant, sent_page, default_call_handler,
}
use opentelemetry_collector.Mock.Server.{
  MockServer, filter_records, page_of, get_filtered_records, start_index,
}
use opentelemetry_collector.Mock.Server.Pages.{PlaceOf, as_page, page_of-Answers}
use opentelemetry_collector.Records.Parse.{
  parse_log_record_array, parse_log_record, parse_log_records_data_type, as_text,
}
use opentelemetry_collector.Severity.{get_min_severity_value}
use opentelemetry_collector.Ua.Buffers.{BufferApi}
use opentelemetry_collector.Ua.NodeIds.{NodeIdApi}
use opentelemetry_collector.Value.{Values, Time, OpcuaLogRecord}

abbrev map_page : {A B : Type 0} → (A → B) → Page A → Page B
map_page f failed = failed
map_page f (page rs next) = page (map f rs) next

-- A list handed out page by page, each of its elements converted.
Answers-map :
    {World A B : Type 0} (f : A → B) (records : List A) (At : List ℕ → World → ℕ → Type 0)
    (asked n : ℕ) (got : Page A × World) (got' : Page B × World)
    → Answers records At asked n got
    → got'.0 ≡ map_page f got.0
    → got'.1 ≡ got.1
    → Answers (map f records) At asked n got'
Answers-map f records At asked n got got' a h k = record {
  size = a.size;
  next = a.next;
  is =
      h
      ∙ ap (map_page f) a.is
      ∙ ap (λ (rs : List _). page rs a.next)
          (map-take f a.size (drop n records) ∙ ap (take a.size) (map-drop f n records));
  few = a.few;
  place =
      let same = length-map f records in
      let left = length-drop n records in
      let left' = length-drop n (map f records) in
      elim a.place [
        | inl (end, all) ↦ inl (end, omega (arith, same, left, left'))
        | inr (more, some_sent, room, there) ↦
            inr (more, some_sent, omega (arith, same), rw k there)
      ];
}

module _ (ua : NodeIdApi) where
  open ua use {NodeId}

  parse_log_record_array-convert_records_to_variant :
      (rs : List OpcuaLogRecord)
      → All HasDistinct rs
      → parse_log_record_array ua (convert_records_to_variant rs) ≡ map shown rs
  unfolding parse_log_record_array convert_records_to_variant parse_log_record
  parse_log_record_array-convert_records_to_variant [] h = refl
  parse_log_record_array-convert_records_to_variant (r ∷ rs) (h, hs) = rw (
    parse_log_record_from_map-parse_record_map ua (record_map r) (message_no_dict r)
        (ap as_text (no_source_node r)),
    parse_record_map-record_map r h,
    parse_log_record_array-convert_records_to_variant rs hs,
  )

  -- The input arguments that `callGetRecordsMethod` makes of its request.
  abbrev pub arguments_of : CallRequest NodeId → List Argument
  arguments_of r =
      date_time r.start_time
      ∷ date_time r.end_time
      ∷ uint32 r.max_records
      ∷ uint16 r.min_severity
      ∷ uint32 r.log_record_mask
      ∷ Argument.byte_string r.continuation_point
      ∷ []

  abbrev result_of : Handled NodeId → Option (CallResult NodeId)
  result_of (returned result) = some result
  result_of panicked = none

  -- The handler as the service that a client calls. The mock server has no nodes to browse.
  abbrev pub handler_services : (Values → Option Values) → MockServer → CallServices NodeId
  handler_services must_variant s = record {
    World = Unit {0};
    browse = λ n components w. (none, w);
    call = λ r w. (
      result_of (default_call_handler must_variant s (ua.int_id r.method_id) (arguments_of r)),
      w,
    );
  }

module _ (ua : NodeIdApi) (bufs : BufferApi) (must_variant : Values → Option Values)
    (holds : HoldsSlices must_variant) (s : MockServer) where
  open ua use {NodeId}

  outcome-sent_page :
      (answer : List OpcuaLogRecord × List ℕ)
      → All HasDistinct answer.0
      → outcome_of ua bufs
          (handler_services ua must_variant s)
          (result_of ua (sent_page must_variant answer))
        ≡ answered (map_page shown (as_page answer).0)
  unfolding outcome_of page_from payload_of point_of parse_log_records_data_type sent_page
  outcome-sent_page (rs, next) h = rw (
    holds (convert_records_to_variant rs),
    parse_log_record_array-convert_records_to_variant ua rs h,
  )

  module _ (distinct : All HasDistinct s.records) (start end : Time) (min_severity : ℕ)
      (range : ltb_ℤ end start ≡ false) where
    handled :
        (n : NodeId) (asked : ℕ) (point : List ℕ)
        → default_call_handler {NodeId = NodeId} must_variant s
            (ua.int_id (ua.new_numeric 0 11550))
            (arguments_of ua (
              request ua bufs
                (handler_services ua must_variant s)
                start
                end
                min_severity
                n
                asked
                point
                (ua.new_numeric 0 11550)))
          ≡ sent_page must_variant (get_filtered_records s start end asked min_severity point)
    unfolding default_call_handler request
    handled n asked point = rw (ua.numeric_int_id 0 11550 (omega arith), range)

    once-get_filtered_records :
        (n : NodeId) (asked : ℕ) (point : List ℕ)
        → call_once ua bufs
            (handler_services ua must_variant s)
            start
            end
            min_severity
            n
            asked
            point
            tt
          ≡ (
            answered (
                map_page shown
                  (as_page (get_filtered_records s start end asked min_severity point)).0),
            tt,
          )
    unfolding call_once find_get_records_method method_in method_or_standard request
    once-get_filtered_records n asked point =
        ap (λ (o : Outcome). (o, tt))
          (ap
              (λ (h : Handled NodeId).
                outcome_of ua bufs (handler_services ua must_variant s) (result_of ua h))
              (handled n asked point)
            ∙ outcome-sent_page _
                (get_filtered_records-HasDistinct s start end asked min_severity point distinct))

    fetch-get_filtered_records :
        (n : NodeId) (asked : ℕ) (point : List ℕ) (w : Unit {0})
        → call_get_records_method ua bufs
            (handler_services ua must_variant s)
            start
            end
            min_severity
            n
            asked
            point
            w
          ≡ (
            map_page shown (as_page (get_filtered_records s start end asked min_severity point)).0,
            tt,
          )
    unfolding call_get_records_method retry
    fetch-get_filtered_records n asked point w = rw (once-get_filtered_records n asked point)

    serves :
        length (filter_records start end min_severity s.records) < 2 ^ 32
        → (n : NodeId)
        → Serves (map shown (filter_records start end min_severity s.records)) PlaceOf (
            call_get_records_method ua bufs
              (handler_services ua must_variant s)
              start
              end
              min_severity
              n)
    serves fits n asked place point w at h =
        Answers-map shown (filter_records start end min_severity s.records) PlaceOf asked place
          (as_page (page_of (filter_records start end min_severity s.records) asked point)) _
          (page_of-Answers _ fits asked place point at h)
          (ap (λ (a : Page OpcuaLogRecord × Unit {0}). a.0)
              (fetch-get_filtered_records n asked point w)
            ∙ (unfold get_filtered_records in refl))
          refl

  -- Against the call handler of the tests' server, where `ua.MustVariant` holds every slice, the
  -- names of the attributes of each of its records are distinct, the records of the time range and
  -- the client's severity are fewer than 2 ^ 32, the range does not end before it starts, and the
  -- limit is below 2 ^ 32: `GetRecords` of a client that has a connection and nodes ends with no
  -- error and returns, for each node, the first of those records in the server's order, as many as
  -- the node's share of the limit, without source nodes, and without trace flags where there is
  -- neither trace id nor span id.
  pub get_records-handler_services :
      (c : OpcuaClient NodeId) (start end : Time) (max_records : ℤ)
      → All HasDistinct s.records
      → let severity = get_min_severity_value c.config in
        length (filter_records start end severity s.records) < 2 ^ 32
        → ltb_ℤ end start ≡ false
        → c.has_client ≡ true
        → c.log_object_ids ≢ []
        → pos_part max_records < 2 ^ 32
        → let limit = share max_records (length c.log_object_ids) in
          get_records ua bufs
            (handler_services ua must_variant s)
            (limit + 1)
            c
            start
            end
            max_records
            tt
          ≡ some (
            some (
                first_of_each
                  (λ (n : NodeId). map shown (filter_records start end severity s.records))
                  limit
                  c.log_object_ids),
            tt,
          )
  unfolding get_records start_index
  get_records-handler_services c start end max_records distinct fits range there some_nodes u =
      let severity = get_min_severity_value c.config in
      let limit = share max_records (length c.log_object_ids) in
      let (w, collected) =
        node_loop-first_of_each
          (call_get_records_method ua bufs (handler_services ua must_variant s) start end severity)
          (λ (n : NodeId). map shown (filter_records start end severity s.records)) (λ n. PlaceOf)
          (λ n w. refl) (serves distinct start end severity range fits) limit
          (share-lt max_records (length c.log_object_ids) u)
          (share_pos max_records (length c.log_object_ids)) c.log_object_ids tt in
      rw (there, not_nil c.log_object_ids some_nodes, collected)
