-- ===== src/Tests/PagingTests.antt =====
-- The loops of receiver/opcua/client.go on small servers.
use opentelemetry_collector.Common.{
  ℕ, true, ◌+◌, ◌^◌, ◌≤◌, ◌<◌, ◌≡◌, ◌⊎◌, refl, sym, inl, List, [], ◌∷◌, none, some, length, take,
  drop, pos, pos_part, arith,
}
use mathlib.Core.Path.{subst}
use opentelemetry_collector.Client.Paging.{Page, page, share, node_loop}
use opentelemetry_collector.Client.Paging.Bounds.{Obeys, node_loop-share}
use opentelemetry_collector.Client.Paging.Complete.{Serves, first_of_each, node_loop-first_of_each}
use opentelemetry_collector.Client.Paging.Termination.{
  Progresses, node_loop_total, node_loop-Stalls,
}
use opentelemetry_collector.Mock.Server.{MockServer, passes, filter_records}
use opentelemetry_collector.Value.{OpcuaLogRecord}

-- A server that sends one record for each request, and always has more.
abbrev endless : ℕ → ℕ → List ℕ → Unit {0} → Page ℕ × Unit {0}
endless node asked point w = (page (node ∷ []) (1 ∷ []), tt)

-- A server that sends nothing, and always has more.
abbrev stalled : ℕ → ℕ → List ℕ → Unit {0} → Page ℕ × Unit {0}
stalled node asked point w = (page [] (1 ∷ []), tt)

endless-Progresses : (node : ℕ) → Progresses (endless node)
endless-Progresses node asked point w records next e ne h =
    let same : node ∷ [] ≡ records = cc in subst (λ (l : List ℕ). 0 < length l) same (omega arith)

endless-Obeys : (node : ℕ) → Obeys (endless node)
endless-Obeys node asked point w records next e h =
    let same : node ∷ [] ≡ records = cc in
    subst (λ (l : List ℕ). length l ≤ asked) same (omega arith)

node_loop_total_example :
    (r : List ℕ × Unit {0}) × (node_loop (3 + 1) endless 3 (8 ∷ 9 ∷ []) [] tt ≡ some r)
node_loop_total_example =
    node_loop_total endless 3 (omega arith) (omega arith) endless-Progresses (8 ∷ 9 ∷ []) [] tt

node_loop-Stalls_example : node_loop 100 stalled 3 (8 ∷ 9 ∷ []) [] tt ≡ none
node_loop-Stalls_example =
    node_loop-Stalls stalled 3 (omega arith) 8 (λ asked point w. (1 ∷ [], refl, λ e. cc)) 100
      (9 ∷ []) [] tt

node_loop-share_example :
    (r : List ℕ × Unit {0}) × (node_loop
        (share (pos 5) 2 + 1)
        endless
        (share (pos 5) 2)
        (8 ∷ 9 ∷ [])
        []
        tt
      ≡ some r)
    × ((length r.0 ≤ pos_part (pos 5)) ⊎ (length r.0 ≤ 2))
node_loop-share_example =
    node_loop-share endless endless-Progresses endless-Obeys (pos 5) (8 ∷ 9 ∷ []) tt (omega arith)

-- A server that has one record for each node.
abbrev single : ℕ → ℕ → List ℕ → Unit {0} → Page ℕ × Unit {0}
single node asked point w = (page (node ∷ []) [], tt)

single-Serves : (node : ℕ) → Serves (node ∷ []) (λ point w n. n ≡ 0) (single node)
single-Serves node asked n point w at h = record {
  size = 1;
  next = [];
  is = subst (λ (k : ℕ). page (node ∷ []) [] ≡ page (take 1 (drop k (node ∷ []))) []) (sym at) refl;
  few = omega arith;
  place = inl (refl, subst (λ (k : ℕ). length (drop k (node ∷ [])) ≤ 1) (sym at) (omega arith));
}

node_loop-first_of_each_example :
    (w : Unit {0}) × (node_loop (2 + 1) single 2 (8 ∷ 9 ∷ []) [] tt
      ≡ some (first_of_each (λ node. node ∷ []) 2 (8 ∷ 9 ∷ []), w))
node_loop-first_of_each_example =
    node_loop-first_of_each single (λ node. node ∷ []) (λ node point w n. n ≡ 0) (λ node w. refl)
      single-Serves 2 (omega arith) (omega arith) (8 ∷ 9 ∷ []) tt

abbrev two_records : List OpcuaLogRecord
two_records = record_at 10 ∷ record_at 20 ∷ []
  where
    record_at : ℕ → OpcuaLogRecord
    record_at t = record {
      timestamp = pos t;
      severity = 200;
      message = [];
      source_name = [];
      source_namespace = 0;
      source_id_type = [];
      source_id = [];
      trace_id = [];
      span_id = [];
      trace_flags = 0;
      attributes = [];
    }

abbrev server : MockServer
server = record { endpoint = []; records = two_records; running = true }

abbrev one_node : List ℕ
one_node = 2042 ∷ []

both_pass : length (filter_records (pos 0) (pos 100) 101 two_records) < 2 ^ 32
unfolding filter_records passes
both_pass = omega arith
