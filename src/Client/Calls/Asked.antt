-- ===== src/Client/Calls/Asked.antt =====
-- The requests that `GetRecords` of receiver/opcua/client.go makes through `callGetRecordsMethod` of
-- receiver/opcua/get_records.go.
use opentelemetry_collector.Common.{
  ℕ, ◌+◌, ◌^◌, ◌≤◌, ◌<◌, ◌≡◌, ◌⊎◌, refl, sym, Bool, true, false, Bool-cases, Option-cases, inl, inr,
  List, [], ◌∷◌, Option, none, some, length, is_nil, All, ℤ, pos_part, arith,
}
use mathlib.Core.Path.{subst}
use opentelemetry_collector.Client.Calls.{
  CallServices, CallRequest, Outcome, answered, point_invalid, method_in, find_get_records_method,
  request, call_once, retry, call_get_records_method, get_records,
}
use opentelemetry_collector.Client.Discovery.{OpcuaClient}
use opentelemetry_collector.Client.Paging.{Page, share, node_loop}
use opentelemetry_collector.Client.Paging.Bounds.{share_pos, share-lt}
use opentelemetry_collector.Client.Paging.Keeps.{Keeps, node_loop-Keeps}
use opentelemetry_collector.Client.Paging.Termination.{Progresses, node_loop_total}
use opentelemetry_collector.Severity.{get_min_severity_value}
use opentelemetry_collector.Ua.Buffers.{BufferApi}
use opentelemetry_collector.Ua.NodeIds.{NodeIdApi}
use opentelemetry_collector.Value.{Time, OpcuaLogRecord}

-- The element stands in the list.
abbrev pub Among : {A : Type 0} → A → List A → Type 0
Among a [] = ⊥
Among a (b ∷ l) = (a ≡ b) ⊎ Among a l

All-Among :
    {A : Type 0} (l m : List A) → All (λ a. Among a m) l → (b : A) → All (λ a. Among a (b ∷ m)) l
All-Among [] m h b = tt
All-Among (a ∷ l) m (h, hs) b = (inr h, All-Among l m hs b)

All-Among_self : {A : Type 0} (l : List A) → All (λ a. Among a l) l
All-Among_self [] = tt
All-Among_self (a ∷ l) = (inl refl, All-Among l l (All-Among_self l) a)

-- The services that also keep the requests, the latest first.
abbrev pub noting : {NodeId : Type 0} → CallServices NodeId → CallServices NodeId
noting {NodeId} services = record {
  World = services.World × List (CallRequest NodeId);
  browse = λ n components (w, h).
      let (results, w') = services.browse n components w in (results, (w', h));
  call = λ req (w, h). let (result, w') = services.call req w in (result, (w', req ∷ h));
}

module _ (ua : NodeIdApi) (bufs : BufferApi) (services : CallServices (ua.NodeId)) where
  open ua use {NodeId}

  abbrev Noted : Type 0
  Noted = services.World × List (CallRequest NodeId)

  history-find :
      (n : NodeId) (w : Noted) → (find_get_records_method ua bufs (noting services) n w).1.1 ≡ w.1
  unfolding find_get_records_method
  history-find n (w, h) =
      elim (Option-cases (method_in ua bufs (noting services) (services.browse n true w).0)) [
        | inl e ↦ rw (e, find_get_records_method)
        | inr (m, e) ↦ rw (e, find_get_records_method)
      ]

  module _ (P : CallRequest NodeId → Type 0) where
    abbrev AllNoted : Noted → Type 0
    AllNoted w = All P w.1

    retry_keeps :
        (again : Noted → Outcome × Noted)
        → ((w : Noted) → AllNoted w → AllNoted (again w).1)
        → (b : Bool) (o : Outcome × Noted) → AllNoted o.1
        → AllNoted (retry ua bufs (noting services) again b o).1
    unfolding retry
    retry_keeps again k b (answered got, w) i = i
    retry_keeps again k true (point_invalid, w) i = i
    retry_keeps again k false (point_invalid, w) i = k w i

    module _ (start end : Time) (min_severity : ℕ) (n : NodeId) (asked : ℕ)
        (good : (point : List ℕ) (method : NodeId)
          → P (request ua bufs (noting services) start end min_severity n asked point method)) where
      once_keeps :
          (point : List ℕ) (w : Noted)
          → AllNoted w
          → AllNoted (call_once ua bufs (noting services) start end min_severity n asked point w).1
      unfolding call_once
      once_keeps point w i = (good point _, subst (All P) (sym (history-find n w)) i)

      call_keeps :
          (point : List ℕ) (w : Noted)
          → AllNoted w
          → AllNoted
              (call_get_records_method ua bufs
                (noting services)
                start
                end
                min_severity
                n
                asked
                point
                w).1
      unfolding call_get_records_method
      call_keeps point w i =
          retry_keeps (call_once ua bufs (noting services) start end min_severity n asked [])
            (once_keeps []) (is_nil point)
            (call_once ua bufs (noting services) start end min_severity n asked point w)
            (once_keeps point w i)

  module _ (c : OpcuaClient NodeId) (start_time end_time : Time) (max_records : ℤ) where
    abbrev limit : ℕ
    limit = share max_records (length c.log_object_ids)

    abbrev severity : ℕ
    severity = get_min_severity_value c.config

    abbrev fetch : NodeId → ℕ → List ℕ → Noted → Page OpcuaLogRecord × Noted
    fetch = call_get_records_method ua bufs (noting services) start_time end_time severity

    -- The request asks one of the client's nodes for at least one record and at most the node's
    -- share, a number that fits a uint32, of the time range and the client's severity, with all
    -- fields.
    pub record IsAsked (r : CallRequest NodeId) : Type 0 where
      pub node : Among r.object_id c.log_object_ids
      pub from : r.start_time ≡ start_time
      pub to : r.end_time ≡ end_time
      pub threshold : r.min_severity ≡ severity
      pub mask : r.log_record_mask ≡ 0x1F
      pub some_records : 0 < r.max_records
      pub within : r.max_records ≤ limit
      pub fits : r.max_records < 2 ^ 32

    request-IsAsked :
        limit < 2 ^ 32
        → (n : NodeId) (asked : ℕ) (point : List ℕ) (method : NodeId) → Among n c.log_object_ids
        → 0 < asked
        → asked ≤ limit
        → IsAsked
            (request ua bufs (noting services) start_time end_time severity n asked point method)
    unfolding request
    request-IsAsked u n asked point method there h k = record {
      node = there;
      from = refl;
      to = refl;
      threshold = refl;
      mask = refl;
      some_records = h;
      within = k;
      fits = omega arith;
    }

    keeps :
        (u : limit < 2 ^ 32)
        → (nodes : List NodeId) → All (λ n. Among n c.log_object_ids) nodes
        → All (λ n. Keeps (AllNoted IsAsked) limit u (fetch n)) nodes
    keeps u [] h = tt
    keeps u (n ∷ nodes) (h, hs) = (
      λ asked point w pos few i.
          call_keeps IsAsked start_time end_time severity n asked
            (λ point' method. request-IsAsked u n asked point' method h pos few) point w i,
      keeps u nodes hs,
    )

    abbrev run : Noted → Option (Option (List OpcuaLogRecord) × Noted)
    run = get_records ua bufs (noting services) (limit + 1) c start_time end_time max_records

    no_client : c.has_client ≡ false → (w : services.World) → run (w, []) ≡ some (none, (w, []))
    unfolding get_records
    no_client h w = rw h

    no_nodes :
        c.has_client ≡ true
        → is_nil c.log_object_ids ≡ true
        → (w : services.World) → run (w, []) ≡ some (none, (w, []))
    unfolding get_records
    no_nodes h k w = rw (h, k)

    collected :
        c.has_client ≡ true
        → is_nil c.log_object_ids ≡ false
        → (w : services.World) (r : List OpcuaLogRecord × Noted)
        → node_loop (limit + 1) fetch limit c.log_object_ids [] (w, []) ≡ some r
        → run (w, []) ≡ some (some r.0, r.1)
    unfolding get_records
    collected h k w r e = rw (h, k, e)

    -- Against a server whose pages progress and with a limit below 2 ^ 32, `GetRecords` with fuel
    -- for one page more than a node's share ends, and each request that it makes, those after an
    -- invalid continuation point included, is as `IsAsked` says.
    pub get_records-IsAsked :
        ((n : NodeId) → Progresses (fetch n))
        → pos_part max_records < 2 ^ 32
        → (w : services.World)
        → (result : Option (List OpcuaLogRecord)) × (w' : Noted) × (get_records ua bufs
              (noting services)
              (limit + 1)
              c
              start_time
              end_time
              max_records
              (w, [])
            ≡ some (result, w'))
          × All IsAsked w'.1
    get_records-IsAsked p u w = elim (Bool-cases c.has_client) [
      | inr gone ↦ (none, (w, []), no_client gone w, tt)
      | inl there ↦ elim (Bool-cases (is_nil c.log_object_ids)) [
        | inl empty ↦ (none, (w, []), no_nodes there empty w, tt)
        | inr nodes ↦
            let small = share-lt max_records (length c.log_object_ids) u in
            let pos = share_pos max_records (length c.log_object_ids) in
            let (r, e) = node_loop_total fetch limit pos small p c.log_object_ids [] (w, []) in
            (
              some r.0,
              r.1,
              collected there nodes w r e,
              node_loop-Keeps (AllNoted IsAsked) limit small fetch pos (limit + 1) c.log_object_ids
                  [] (w, []) (keeps small c.log_object_ids (All-Among_self c.log_object_ids)) tt r
                  e,
            )
      ]
    ]
