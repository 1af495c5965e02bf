-- ===== src/Mock/Server/Pages.antt =====
-- The pages of receiver/opcua/testdata/mock_server.go against the loop of receiver/opcua/client.go
-- that asks for them.
use opentelemetry_collector.Common.{
  ℕ, ◌+◌, ◌^◌, ◌≤◌, ◌<◌, ◌≡◌, refl, inl, inr, List, [], length, take, drop, some, length-drop,
  take-of_length_le, ap, arith,
}
use native.Mathlib.Decide.{dec_lt}
use opentelemetry_collector.Client.Paging.{Page, page, node_loop}
use opentelemetry_collector.Client.Paging.Complete.{Answers, first_of_each, node_loop-first_of_each}
use opentelemetry_collector.LogRecord.Hex.{put_little, length-put_little, get_little-put_little}
use opentelemetry_collector.Mock.Server.{
  MockServer, filter_records, start_index, page_of, get_filtered_records,
}
use opentelemetry_collector.Value.{Time, OpcuaLogRecord}

-- A continuation point that the server made stands for the place that it was made of.
start_index-put_little : (n : ℕ) → n < 2 ^ 32 → start_index (put_little 4 n) ≡ n
unfolding start_index
start_index-put_little n h =
    let len = length-put_little 4 n in
    rw (len, take-of_length_le 4 (put_little 4 n) (omega (arith, len)))
      (get_little-put_little 4 n (omega arith))

abbrev pub as_page : List OpcuaLogRecord × List ℕ → Page OpcuaLogRecord × Unit {0}
as_page answer = (page answer.0 answer.1, tt)

-- A client's request for a page.
abbrev pub mock_fetch :
    MockServer → Time → Time → ℕ → ℕ → ℕ → List ℕ → Unit {0} → Page OpcuaLogRecord × Unit {0}
mock_fetch s start end min_severity node asked point w =
    as_page (get_filtered_records s start end asked min_severity point)

abbrev pub PlaceOf : List ℕ → Unit {0} → ℕ → Type 0
PlaceOf p w k = start_index p ≡ k

module _ (filtered : List OpcuaLogRecord) (fits : length filtered < 2 ^ 32) (asked n : ℕ)
    (point : List ℕ) (at : start_index point ≡ n) (h : 0 < asked) where
  page_of_end : length filtered ≤ n → page_of filtered asked point ≡ ([], [])
  unfolding page_of
  page_of_end over = rw (at, page_of) (ground arith)

  page_of_cut :
      n < length filtered
      → asked < length (drop n filtered)
      → page_of filtered asked point ≡ (take asked (drop n filtered), put_little 4 (n + asked))
  unfolding page_of
  page_of_cut inside more = rw (at, page_of) (ground arith)

  page_of_rest :
      n < length filtered
      → length (drop n filtered) ≤ asked
      → page_of filtered asked point ≡ (drop n filtered, [])
  unfolding page_of
  page_of_rest inside all = rw (at, page_of) (ground arith)

  pub page_of-Answers : Answers filtered PlaceOf asked n (as_page (page_of filtered asked point))
  page_of-Answers = elim (dec_lt n (length filtered)) [
    | no over ↦ record {
      size = 0;
      next = [];
      is = rw (page_of_end (omega arith));
      few = omega arith;
      place = inl (refl, omega (arith, length-drop n filtered));
    }
    | yes inside ↦ elim (dec_lt asked (length (drop n filtered))) [
      | yes more ↦ record {
        size = asked;
        next = put_little 4 (n + asked);
        is = rw (page_of_cut inside more);
        few = omega arith;
        place = inr (
          (λ e. cc (length-put_little 4 (n + asked), ap length e)),
          h,
          omega (arith, length-drop n filtered),
          start_index-put_little (n + asked) (omega (arith, length-drop n filtered)),
        );
      }
      | no all ↦ record {
        size = length (drop n filtered);
        next = [];
        is = rw (
          page_of_rest inside (omega arith),
          take-of_length_le (length (drop n filtered)) (drop n filtered) (omega arith),
        );
        few = omega arith;
        place = inl (refl, omega arith);
      }
    ]
  ]

-- Against the mock server, if the number of its records of the time range and severity fits a
-- uint32, the loops of `GetRecords` with a limit that is not 0 and fits a uint32 end, and collect
-- for each node the first `limit` of those records, in order.
node_loop-mock_fetch :
    (s : MockServer) (start end : Time) (min_severity limit : ℕ)
    → length (filter_records start end min_severity s.records) < 2 ^ 32
    → limit < 2 ^ 32
    → 0 < limit
    → (nodes : List ℕ)
    → (w : Unit {0}) × (node_loop
          (limit + 1)
          (mock_fetch s start end min_severity)
          limit
          nodes
          []
          tt
        ≡ some (
          first_of_each (λ node. filter_records start end min_severity s.records) limit nodes,
          w,
        ))
unfolding get_filtered_records start_index
node_loop-mock_fetch s start end min_severity limit fits u h nodes =
    node_loop-first_of_each (mock_fetch s start end min_severity) _ (λ node. PlaceOf)
      (λ node w. refl) (λ node asked n point w at pos. page_of-Answers _ fits asked n point at pos)
      limit u h nodes tt
