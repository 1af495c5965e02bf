-- ===== src/Client/Calls/Answers.antt =====
-- `GetRecords` of receiver/opcua/client.go against a server that answers its calls.
pub mod Restart
use opentelemetry_collector.Common.{
  length-drop, ℕ, zero, suc, Bool, ◌+◌, ◌^◌, ◌≤◌, ◌<◌, ◌≡◌, ◌≢◌, ◌⊎◌, refl, ap, ◌∙◌, true, false,
  inl, inr, List, [], ◌∷◌, some, length, take, drop, map, map-take, map-drop, length-map, All,
  All-take, All-drop, is_nil, ℤ, pos_part, arith,
}
use opentelemetry_collector.Client.Calls.{
  CallServices, CallResult, Outcome, answered, point_invalid, good, byte_string, payload, request,
  payload_of, point_of, page_from, outcome_of, call_once, retry, call_get_records_method,
  get_records,
}
use opentelemetry_collector.Client.Discovery.{OpcuaClient}
use opentelemetry_collector.Client.Paging.{Page, share}
use opentelemetry_collector.Client.Paging.Bounds.{share_pos, share-lt}
use opentelemetry_collector.Client.Paging.Complete.{Serves, first_of_each, node_loop-first_of_each}
use opentelemetry_collector.LogRecord.Codec.{LogRecordExtObj}
use opentelemetry_collector.LogRecord.Codec.RoundTrip.{IsWire}
use opentelemetry_collector.Records.Parse.{objects, parse_log_records_data_type}
use opentelemetry_collector.Records.Parse.Arrays.{sent, received, parse_extension_object_array-sent}
use opentelemetry_collector.Severity.{get_min_severity_value}
use opentelemetry_collector.Ua.Buffers.{BufferApi}
use opentelemetry_collector.Ua.NodeIds.{NodeIdApi}
use opentelemetry_collector.Value.{Time, OpcuaLogRecord}

pub not_nil : {A : Type 0} (xs : List A) → xs ≢ [] → is_nil xs ≡ false
not_nil [] h = absurd (h refl)
not_nil (x ∷ xs) h = refl

module _ (ua : NodeIdApi) (bufs : BufferApi) where
  open ua use {NodeId}

  -- The answer with which a server sends records and a continuation point.
  abbrev pub sends : List (LogRecordExtObj NodeId) → List ℕ → CallResult NodeId
  sends ls next = record {
    status = good;
    outputs = some (payload (objects (map (sent ua bufs) ls))) ∷ some (byte_string next) ∷ [];
  }

module _ (ua : NodeIdApi) (bufs : BufferApi) (services : CallServices (ua.NodeId)) where
  open ua use {NodeId}
  open services use {World, call}

  outcome-sends :
      (ls : List (LogRecordExtObj NodeId)) (next : List ℕ)
      → All (IsWire ua bufs) ls
      → outcome_of ua bufs services (some (sends ua bufs ls next))
        ≡ answered (Page.page (map (received ua bufs) ls) next)
  unfolding outcome_of page_from payload_of point_of parse_log_records_data_type
  outcome-sends ls next h = rw (parse_extension_object_array-sent ua bufs ls h)

  module _ (start_time end_time : Time) (min_severity : ℕ) where
    abbrev fetch : NodeId → ℕ → List ℕ → World → Page OpcuaLogRecord × World
    fetch = call_get_records_method ua bufs services start_time end_time min_severity

    -- The server holds records for each node, and sends some of them, at most as many as asked for,
    -- from the place on that a continuation point stands for; with no continuation point these
    -- are all that are left.
    pub record Server (served : NodeId → List (LogRecordExtObj NodeId)) : Type 1 where
      pub At : NodeId → List ℕ → ℕ → Type 0
      pub at_start : (n : NodeId) → At n [] 0
      pub size : NodeId → ℕ → ℕ → ℕ
      pub next : NodeId → ℕ → ℕ → List ℕ
      pub answers :
          (n : NodeId) (asked place : ℕ) (point : List ℕ) (method : NodeId) (w : World)
          → At n point place
          → (call
              (request ua bufs services start_time end_time min_severity n asked point method)
              w).0
            ≡ some (
                sends ua bufs
                  (take (size n asked place) (drop place (served n)))
                  (next n asked place))
      pub few : (n : NodeId) (asked place : ℕ) → size n asked place ≤ asked
      pub goes_on :
          (n : NodeId) (asked place : ℕ)
          → 0 < asked
          → ((next n asked place ≡ []) × (length (drop place (served n)) ≤ size n asked place))
            ⊎ ((next n asked place ≢ [])
                × (0 < size n asked place)
                × (place + size n asked place ≤ length (served n))
                × At n (next n asked place) (place + size n asked place))

    once-sends :
        (n : NodeId) (asked : ℕ) (point : List ℕ) (ls : List (LogRecordExtObj NodeId))
        → (next : List ℕ) (w : World) → All (IsWire ua bufs) ls
        → ((method : NodeId) (w' : World)
            → (call
                (request ua bufs services start_time end_time min_severity n asked point method)
                w').0
              ≡ some (sends ua bufs ls next))
        → (call_once ua bufs services start_time end_time min_severity n asked point w).0
          ≡ answered (Page.page (map (received ua bufs) ls) next)
    unfolding call_once
    once-sends n asked point ls next w h a = rw (a _ _) (outcome-sends ls next h)

    retry-answered :
        (again : World → Outcome × World) (b : Bool) (o : Outcome × World)
        → (got : Page OpcuaLogRecord) → o.0 ≡ answered got
        → (retry ua bufs services again b o).0 ≡ got
    unfolding retry
    retry-answered again b (answered got', w) got h = cc
    retry-answered again b (point_invalid, w) got h = cc

    fetch-sends :
        (n : NodeId) (asked : ℕ) (point : List ℕ) (ls : List (LogRecordExtObj NodeId))
        (next : List ℕ) (w : World)
        → All (IsWire ua bufs) ls
        → ((method : NodeId) (w' : World)
            → (call
                (request ua bufs services start_time end_time min_severity n asked point method)
                w').0
              ≡ some (sends ua bufs ls next))
        → (fetch n asked point w).0 ≡ Page.page (map (received ua bufs) ls) next
    unfolding call_get_records_method
    fetch-sends n asked point ls next w h a =
        let once = call_once ua bufs services start_time end_time min_severity n asked in
        retry-answered (once []) (is_nil point) (once point w) _
          (once-sends n asked point ls next w h a)

    module _ (served : NodeId → List (LogRecordExtObj NodeId))
        (wire : (n : NodeId) → All (IsWire ua bufs) (served n)) (server : Server served) where
      abbrev held : NodeId → List OpcuaLogRecord
      held n = map (received ua bufs) (served n)

      serves : (n : NodeId) → Serves (held n) (λ point w. server.At n point) (fetch n)
      serves n asked place point w at pos = record {
        size = server.size n asked place;
        next = server.next n asked place;
        is =
            fetch-sends n asked point _ _ w
              (All-take (IsWire ua bufs) (server.size n asked place) _
                (All-drop (IsWire ua bufs) place _ (wire n)))
              (λ method w'. server.answers n asked place point method w' at)
            ∙ ap (λ (rs : List OpcuaLogRecord). Page.page rs (server.next n asked place))
                (map-take (received ua bufs) (server.size n asked place) (drop place (served n))
                  ∙ ap (take (server.size n asked place))
                      (map-drop (received ua bufs) place (served n)));
        few = server.few n asked place;
        place =
            let same = length-map (received ua bufs) (served n) in
            let left = length-drop place (served n) in
            let held_left = length-drop place (held n) in
            elim (server.goes_on n asked place pos) [
              | inl (end, all) ↦ inl (end, omega (arith, same, left, held_left))
              | inr (more, some_sent, inside, there) ↦
                  inr (more, some_sent, omega (arith, same), there)
            ];
      }

  -- Against a server that holds records for each node, all of which fit the wire, and that sends
  -- them page by page as `Server` says, and for a limit below 2 ^ 32, `GetRecords` of a client that
  -- has a connection and nodes ends with no error and returns, for each of its nodes in order, the
  -- conversions of the first records of that node, as many as the node's share of the limit.
  pub get_records-first_of_each :
      (c : OpcuaClient NodeId) (start_time end_time : Time) (max_records : ℤ)
      → (served : NodeId → List (LogRecordExtObj NodeId))
      → ((n : NodeId) → All (IsWire ua bufs) (served n))
      → Server start_time end_time (get_min_severity_value c.config) served
      → c.has_client ≡ true
      → c.log_object_ids ≢ []
      → pos_part max_records < 2 ^ 32
      → (w : World)
      → let limit = share max_records (length c.log_object_ids) in
        (w' : World) × (get_records ua bufs services (limit + 1) c start_time end_time max_records w
          ≡ some (
            some (first_of_each (λ n. map (received ua bufs) (served n)) limit c.log_object_ids),
            w',
          ))
  unfolding get_records
  get_records-first_of_each c start_time end_time max_records served wire server there some_nodes u
        w =
      let severity = get_min_severity_value c.config in
      let limit = share max_records (length c.log_object_ids) in
      let (w', collected) =
        node_loop-first_of_each (fetch start_time end_time severity)
          (held start_time end_time severity served wire server) (λ n point w. server.At n point)
          (λ n w. server.at_start n) (serves start_time end_time severity served wire server) limit
          (share-lt max_records (length c.log_object_ids) u)
          (share_pos max_records (length c.log_object_ids)) c.log_object_ids w in
      (w', rw (there, not_nil c.log_object_ids some_nodes, collected))
