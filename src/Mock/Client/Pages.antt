-- ===== src/Mock/Client/Pages.antt =====
-- `GetRecordsWithSeverity` of receiver/opcua/testdata/mock_client.go against the handler of
-- receiver/opcua/testdata/mock_server.go.
use opentelemetry_collector.Common.{
  Option, ◌≡◌, refl, ℕ, Bool-cases, not, ◌&&◌, inl, inr, List, [], ◌∷◌, length, drop, leb, ltb, map,
  All, All-take, All-drop, ℤ, ltb_ℤ, if◌then◌else◌,
}
use opentelemetry_collector.LogRecord.Codec.Entries.{IsDistinct}
use opentelemetry_collector.Mock.Client.{
  MockClient, Fetched, fetched, error, parse_maps, to_uint32, get_records_with_severity,
  read_answer, read_result, read_outputs, records_of, point_of,
}
use opentelemetry_collector.Mock.Client.RoundTrip.{shown, parse_record_map-record_map}
use opentelemetry_collector.Mock.Handler.{
  HoldsSlices, convert_records_to_variant, default_call_handler, sent_page,
}
use opentelemetry_collector.Mock.Server.{
  MockServer, passes, filter_records, page_of, get_filtered_records, start_index,
}
use opentelemetry_collector.Value.{Values, Time, OpcuaLogRecord}

-- The names of a record's attributes are distinct, as those of a Go map are.
abbrev pub HasDistinct : OpcuaLogRecord → Type 0
HasDistinct r = IsDistinct r.attributes

filter_records-HasDistinct :
    (start end : Time) (min_severity : ℕ) (rs : List OpcuaLogRecord)
    → All HasDistinct rs
    → All HasDistinct (filter_records start end min_severity rs)
unfolding filter_records
filter_records-HasDistinct start end min_severity [] h = tt
filter_records-HasDistinct start end min_severity (r ∷ rs) (h, hs) =
    elim (Bool-cases (passes start end min_severity r)) [
      | inl e ↦ rw e (h, filter_records-HasDistinct start end min_severity rs hs)
      | inr e ↦ rw e (filter_records-HasDistinct start end min_severity rs hs)
    ]

page_of-HasDistinct :
    (rs : List OpcuaLogRecord) (max_records : ℕ) (point : List ℕ)
    → All HasDistinct rs
    → All HasDistinct (page_of rs max_records point).0
unfolding page_of
page_of-HasDistinct rs max_records point h =
    elim (Bool-cases (leb (length rs) (start_index point))) [
      | inl over ↦ rw over tt
      | inr inside ↦
          elim (Bool-cases
            (ltb 0 max_records && ltb max_records (length (drop (start_index point) rs)))) [
              | inl cut ↦
                  rw (inside, cut)
                    (All-take HasDistinct max_records _
                      (All-drop HasDistinct (start_index point) rs h))
              | inr rest ↦ rw (inside, rest) (All-drop HasDistinct (start_index point) rs h)
            ]
    ]

pub get_filtered_records-HasDistinct :
    (s : MockServer) (start end : Time) (max_records min_severity : ℕ) (point : List ℕ)
    → All HasDistinct s.records
    → All HasDistinct (get_filtered_records s start end max_records min_severity point).0
unfolding get_filtered_records
get_filtered_records-HasDistinct s start end max_records min_severity point h =
    page_of-HasDistinct _ max_records point
      (filter_records-HasDistinct start end min_severity s.records h)

parse_maps-convert_records_to_variant :
    (rs : List OpcuaLogRecord)
    → All HasDistinct rs
    → parse_maps (convert_records_to_variant rs) ≡ map shown rs
unfolding parse_maps convert_records_to_variant
parse_maps-convert_records_to_variant [] h = refl
parse_maps-convert_records_to_variant (r ∷ rs) (h, hs) =
    rw (parse_record_map-record_map r h, parse_maps-convert_records_to_variant rs hs)

abbrev pub fetched_shown : List OpcuaLogRecord × List ℕ → Fetched
fetched_shown answer = fetched (map shown answer.0) answer.1

module _ (NodeId : Type 0) (must_variant : Values → Option Values)
    (holds : HoldsSlices must_variant) where
  read_answer-sent_page :
      (answer : List OpcuaLogRecord × List ℕ)
      → All HasDistinct answer.0
      → read_answer {NodeId = NodeId} (sent_page must_variant answer) ≡ fetched_shown answer
  unfolding read_answer sent_page read_result read_outputs records_of point_of
  read_answer-sent_page (rs, next) h =
      rw (holds (convert_records_to_variant rs), parse_maps-convert_records_to_variant rs h)

  -- Where `ua.MustVariant` holds every slice: a request of the tests' client, where the names of
  -- the attributes of each of the server's records are distinct, ends with an error exactly when
  -- the client is not connected or the time range ends before it starts, and never with a panic;
  -- any other request yields the page and the continuation point that `getFilteredRecords` makes
  -- for the limit taken as a uint32, each record of it without its source node, and without its
  -- trace flags where it has neither trace id nor span id.
  pub get_records_with_severity-get_filtered_records :
      (s : MockServer) (c : MockClient) (start end : Time) (max_records : ℤ) (min_severity : ℕ)
      (point : List ℕ)
      → All HasDistinct s.records
      → get_records_with_severity NodeId must_variant s c start end max_records min_severity point
        ≡ (if c.connected && not (ltb_ℤ end start)
            then fetched_shown
                (get_filtered_records s start end (to_uint32 max_records) min_severity point)
            else error)
  unfolding get_records_with_severity default_call_handler
  get_records_with_severity-get_filtered_records s c start end max_records min_severity point h =
      elim (Bool-cases c.connected) [
        | inr off ↦ rw off
        | inl on ↦ elim (Bool-cases (ltb_ℤ end start)) [
          | inl empty ↦ rw (on, empty)
          | inr range ↦
              rw (on, range)
                (read_answer-sent_page _ (
                  get_filtered_records-HasDistinct s start end (to_uint32 max_records) min_severity
                    point h))
        ]
      ]
