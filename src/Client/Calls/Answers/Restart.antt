-- ===== src/Client/Calls/Answers/Restart.antt =====
-- The retry of receiver/opcua/get_records.go against a server that forgets its continuation points.
use opentelemetry_collector.Common.{
  ℕ, ◌+◌, ◌<◌, ◌≡◌, ◌≢◌, false, List, [], ◌∷◌, Option, some, length, map, All, arith,
}
use opentelemetry_collector.Client.Calls.{
  CallServices, CallResult, Output, Outcome, answered, point_invalid,
  bad_continuation_point_invalid, request, outcome_of, call_once, settle, retry,
  call_get_records_method,
}
use opentelemetry_collector.Client.Calls.Answers.{sends, once-sends, fetch-sends, length-map}
use opentelemetry_collector.Client.Paging.{Page, page_loop}
use opentelemetry_collector.Client.Paging.Restart.{Repeated, page_loop-Repeated}
use opentelemetry_collector.LogRecord.Codec.{LogRecordExtObj}
use opentelemetry_collector.LogRecord.Codec.RoundTrip.{IsWire}
use opentelemetry_collector.Records.Parse.Arrays.{received}
use opentelemetry_collector.Ua.Buffers.{BufferApi}
use opentelemetry_collector.Ua.NodeIds.{NodeIdApi}
use opentelemetry_collector.Value.{Time, OpcuaLogRecord}

module _ (ua : NodeIdApi) (bufs : BufferApi) (services : CallServices (ua.NodeId)) where
  open ua use {NodeId}
  open services use {World, call}

  abbrev invalid_point : List (Option (Output NodeId)) → CallResult NodeId
  invalid_point outputs = record { status = bad_continuation_point_invalid; outputs = outputs }

  retry-invalid :
      (again : World → Outcome × World) (o : Outcome × World) (got : Page OpcuaLogRecord)
      → o.0 ≡ point_invalid
      → ((w : World) → (again w).0 ≡ answered got)
      → (retry ua bufs services again false o).0 ≡ got
  unfolding retry settle
  retry-invalid again (answered other, w) got h a = cc
  retry-invalid again (point_invalid, w) got h a = rw (a w)

  -- The server sends some records and a continuation point where none is given, and says of every
  -- continuation point that it is invalid.
  pub record Forgets (start_time end_time : Time) (min_severity : ℕ) (n : NodeId)
      (ls : List (LogRecordExtObj NodeId)) : Type 0 where
    pub next : List ℕ
    pub goes_on : next ≢ []
    pub sends_first :
        (asked : ℕ) (method : NodeId) (w : World)
        → (call (request ua bufs services start_time end_time min_severity n asked [] method) w).0
          ≡ some (sends ua bufs ls next)
    pub forgets :
        (asked : ℕ) (point : List ℕ) (method : NodeId) (w : World)
        → point ≢ []
        → (call
            (request ua bufs services start_time end_time min_severity n asked point method)
            w).0
          ≡ some (invalid_point [])

  module _ (start_time end_time : Time) (min_severity : ℕ) (n : NodeId)
      (ls : List (LogRecordExtObj NodeId)) (wire : All (IsWire ua bufs) ls)
      (server : Forgets start_time end_time min_severity n ls) where
    abbrev fetch : ℕ → List ℕ → World → Page OpcuaLogRecord × World
    fetch = call_get_records_method ua bufs services start_time end_time min_severity n

    once-invalid :
        (asked : ℕ) (point : List ℕ) (w : World)
        → point ≢ []
        → (call_once ua bufs services start_time end_time min_severity n asked point w).0
          ≡ point_invalid
    unfolding call_once outcome_of
    once-invalid asked point w h = rw (server.forgets asked point _ _ h)

    fetch-first :
        (asked : ℕ) (point : List ℕ) (w : World)
        → (fetch asked point w).0 ≡ Page.page (map (received ua bufs) ls) server.next
    unfolding call_get_records_method
    fetch-first asked [] w =
        fetch-sends ua bufs services start_time end_time min_severity n asked [] ls server.next w
          wire (server.sends_first asked)
    fetch-first asked (c ∷ point) w =
        retry-invalid (call_once ua bufs services start_time end_time min_severity n asked [])
          (call_once ua bufs services start_time end_time min_severity n asked (c ∷ point) w) _
          (once-invalid asked (c ∷ point) w (λ e. cc))
          (λ w'.
            once-sends ua bufs services start_time end_time min_severity n asked [] ls server.next
              w' wire (server.sends_first asked))

    -- Against a server that forgets its continuation points, the retry asks for the first page
    -- again and again: the loop over the pages of a node ends with that page's records, of which
    -- there are some, repeated until the limit, which is not 0, is reached.
    pub page_loop-Forgets :
        (limit : ℕ)
        → 0 < limit
        → 0 < length ls
        → (w : World)
        → Repeated
            (map (received ua bufs) ls)
            limit
            0
            []
            (page_loop (limit + 1) fetch limit 0 [] [] w)
    page_loop-Forgets limit h some_records w =
        page_loop-Repeated fetch (map (received ua bufs) ls) server.next fetch-first
          (omega (arith, length-map (received ua bufs) ls, some_records)) server.goes_on limit
          (limit + 1) 0 [] [] w h (omega arith)
