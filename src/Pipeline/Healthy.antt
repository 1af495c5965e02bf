-- ===== src/Pipeline/Healthy.antt =====
-- The life of a receiver of receiver/opcua/receiver.go over its own client (client.go), as steps.
use opentelemetry_collector.Common.{
  ◌^◌, ◌<◌, ◌≡◌, ◌≢◌, refl, sym, ap, ◌∙◌, Bool, true, false, Bool-cases, inl, inr, ◌==◌, List,
  Option, none, some, pos_part, All,
}
use mathlib.Core.Path.{subst}
use opentelemetry_collector.Client.Discovery.{OpcuaClient, new_opcua_client, connect}
use opentelemetry_collector.Client.Discovery.Found.{Then, IsReady, connect-IsReady}
use opentelemetry_collector.Client.Discovery.Kept.{HasNodes, connect-HasNodes, disconnect-HasNodes}
use opentelemetry_collector.Config.{Config}
use opentelemetry_collector.Pdata.{PdataApi}
use opentelemetry_collector.Pipeline.{Gopcua, services_of, Outside, Whole, end_of_call, client_env}
use opentelemetry_collector.Pipeline.Answered.{
  ServerProgresses, get_records_total, connected-has_client, IsAnswered, Logged,
}
use opentelemetry_collector.Receiver.{LogsReceiver, created, new_logs_receiver, start, pass_on}
use opentelemetry_collector.Receiver.Delivery.{nothing_yet, created-config}
use opentelemetry_collector.Receiver.History.{logged}
use opentelemetry_collector.Receiver.Life.{
  Life, idle, asking, asked, Step, launched, start_failed, test_nil, test_up, test_down, connected,
  connect_failed, ask, hand_on, tick, leave, parent_done, begin_shutdown, end_shutdown, Steps, here,
  after, Reachable,
}
use opentelemetry_collector.Receiver.Life.Sound.{scraper-cancel}
use opentelemetry_collector.Scraper.{Env, Scraper, start_scraper, finish_scrape, shutdown_scraper}
use opentelemetry_collector.Transformer.{StdApi, transform_logs}
use opentelemetry_collector.Ua.Buffers.{BufferApi}
use opentelemetry_collector.Ua.NodeIds.{NodeIdApi}
use opentelemetry_collector.Value.{Time, OpcuaLogRecord}

module _ (pdata : PdataApi) (std : StdApi) (ua : NodeIdApi) (bufs : BufferApi)
    (g : Gopcua (ua.NodeId)) (outside : Outside (pdata.Logs)) (config : Config) where
  open ua use {NodeId}
  open pdata use {Logs, log_record_count}

  abbrev env : Env Logs
  env = client_env ua bufs g outside

  abbrev WholeLife : Type 0
  WholeLife = Life (Logged pdata std ua bufs g outside)

  -- From the launch of the goroutine on the client has nodes. As long as no `Shutdown` has come to
  -- disconnect the client, it has a connection when `GetRecords` is to be called, and every call of
  -- `GetRecords` that has been made was answered with no error.
  pub record IsHealthy (l : WholeLife) : Type 0 where
    pub same : l.receiver.scraper.config ≡ config
    pub nodes : l.phase ≢ idle → HasNodes (l.world.0.0)
    pub connection : l.phase ≡ asking → l.shut ≡ false → l.world.0.0.has_client ≡ true
    pub answered : l.shut ≡ false → All IsAnswered l.world.1.calls

  module _ (p : ServerProgresses ua bufs g)
      (u : pos_part config.max_records_per_call < 2 ^ 32) where
    nil_error-IsReady :
        (r : Bool × OpcuaClient NodeId × g.World)
        → Then ua (services_of g) (IsReady ua (services_of g)) r
        → r.0 ≡ true
        → IsReady ua (services_of g) r.1
    nil_error-IsReady (true, c, w) t e = t
    nil_error-IsReady (false, c, w) t e = cc

    nodes-shutdown :
        (s : Scraper) (w : Logged pdata std ua bufs g outside)
        → HasNodes (w.0.0)
        → HasNodes ((shutdown_scraper pdata std (logged env) s w).1.0.0)
    unfolding shutdown_scraper
    nodes-shutdown s ((c, w, o), h) n = elim (Bool-cases s.has_client) [
      | inl e ↦ simp e (disconnect-HasNodes ua (services_of g) c w n)
      | inr e ↦ simp e n
    ]

    ask-answered :
        (r : LogsReceiver) (w : Logged pdata std ua bufs g outside)
        → r.scraper.config ≡ config
        → HasNodes (w.0.0)
        → w.0.0.has_client ≡ true
        → (asked pdata std (logged env) r w).1 ≢ none
    ask-answered r ((c, w, o), h) same nodes there =
        let s = r.scraper in
        let (records, e) =
          get_records_total ua bufs g p c s.last_collect_time (outside.now o).0
            s.config.max_records_per_call w (there, nodes) (rw same u) in
        rw e (λ (x : some records.0 ≡ none). cc)

    hand_on-keeps :
        (s : Scraper) (end_time : Time) (result : Option (List OpcuaLogRecord))
        (w : Logged pdata std ua bufs g outside)
        → let (s', w') =
            pass_on pdata std
              (logged env)
              (finish_scrape pdata std (logged env) s end_time (result, w)) in
          (s'.config ≡ s.config) × (w'.0.0 ≡ w.0.0) × (w'.1.calls ≡ w.1.calls)
    unfolding pass_on finish_scrape
    hand_on-keeps s end_time none w = (refl, refl, refl)
    hand_on-keeps s end_time (some records) w =
        let clock = (outside.readings w.0.2).0 in
        elim (Bool-cases
          (log_record_count (transform_logs pdata std s.transformer clock records) == 0)) [
            | inl none_came ↦ rw none_came (refl, refl, refl)
            | inr some_came ↦ rw some_came (refl, refl, refl)
          ]

    ended_client :
        (at : Whole ua bufs g outside) (o : Option (Option (List OpcuaLogRecord) × g.World))
        → (end_of_call ua bufs g outside at o).1.0 ≡ at.0
    ended_client at none = refl
    ended_client at (some x) = refl

    Step-IsHealthy :
        (l l' : WholeLife) → Step pdata std (logged env) l l' → IsHealthy l → IsHealthy l'
    unfolding start start_scraper
    Step-IsHealthy _ _ (launched r ((c, w, o), h) shut e) d = record {
      same = d.same;
      nodes = λ x.
          (nil_error-IsReady (connect ua (services_of g) c w)
            (connect-IsReady ua (services_of g) c w) e).1;
      connection = λ x. cc;
      answered = d.answered;
    }
    Step-IsHealthy _ _ (start_failed r ((c, w, o), h) shut e) d = record {
      same = d.same;
      nodes = λ x. absurd (x refl);
      connection = λ x. cc;
      answered = d.answered;
    }
    Step-IsHealthy _ _ (test_nil r w shut e) d = record {
      same = d.same;
      nodes = λ x. d.nodes (λ y. cc);
      connection = λ x. cc;
      answered = d.answered;
    }
    Step-IsHealthy _ _ (test_up r ((c, w, o), h) shut e e') d = record {
      same = d.same;
      nodes = λ x. d.nodes (λ y. cc);
      connection = λ x y. connected-has_client ua bufs g c w e';
      answered = d.answered;
    }
    Step-IsHealthy _ _ (test_down r ((c, w, o), h) shut e e') d = record {
      same = d.same;
      nodes = λ x. d.nodes (λ y. cc);
      connection = λ x. cc;
      answered = d.answered;
    }
    Step-IsHealthy _ _ (connected r ((c, w, o), h) shut e) d = record {
      same = d.same;
      nodes = λ x. connect-HasNodes ua (services_of g) c w (d.nodes (λ y. cc));
      connection = λ x y.
          (nil_error-IsReady (connect ua (services_of g) c w)
            (connect-IsReady ua (services_of g) c w) e).0;
      answered = d.answered;
    }
    Step-IsHealthy _ _ (connect_failed r ((c, w, o), h) shut e) d = record {
      same = d.same;
      nodes = λ x. connect-HasNodes ua (services_of g) c w (d.nodes (λ y. cc));
      connection = λ x. cc;
      answered = d.answered;
    }
    Step-IsHealthy _ _ (ask r ((c, w, o), h) shut) d = record {
      same = d.same;
      nodes =
          λ x. subst HasNodes (sym (ended_client (c, w, (outside.now o).1) _)) (d.nodes (λ y. cc));
      connection = λ x. cc;
      answered = λ y. (
        ask-answered r ((c, w, o), h) d.same (d.nodes (λ x. cc)) (d.connection refl y),
        d.answered y,
      );
    }
    Step-IsHealthy _ _ (hand_on r w shut end_time result) d =
        let (config_kept, client_kept, calls_kept) = hand_on-keeps r.scraper end_time result w in
        record {
          same = config_kept ∙ d.same;
          nodes = λ x. subst HasNodes (sym client_kept) (d.nodes (λ y. cc));
          connection = λ x. cc;
          answered = λ y. subst (All IsAnswered) (sym calls_kept) (d.answered y);
        }
    Step-IsHealthy _ _ (tick r w shut) d = record {
      same = d.same;
      nodes = λ x. d.nodes (λ y. cc);
      connection = λ x. cc;
      answered = d.answered;
    }
    Step-IsHealthy _ _ (leave r w shut e) d = record {
      same = d.same;
      nodes = λ x. d.nodes (λ y. cc);
      connection = λ x. cc;
      answered = d.answered;
    }
    Step-IsHealthy _ _ (parent_done l) d = record {
      same = d.same;
      nodes = d.nodes;
      connection = d.connection;
      answered = d.answered;
    }
    Step-IsHealthy _ _ (begin_shutdown l) d = record {
      same = ap (λ (s : Scraper). s.config) (scraper-cancel pdata std env l.receiver) ∙ d.same;
      nodes = d.nodes;
      connection = d.connection;
      answered = d.answered;
    }
    Step-IsHealthy _ _ (end_shutdown l) d = record {
      same = d.same;
      nodes = λ x. nodes-shutdown l.receiver.scraper l.world (d.nodes x);
      connection = λ x y. cc;
      answered = λ y. cc;
    }

    Steps-IsHealthy :
        (l l' : WholeLife) → IsHealthy l → Steps pdata std (logged env) l l' → IsHealthy l'
    Steps-IsHealthy l _ d here = d
    Steps-IsHealthy l l' d (after m _ q step) = Step-IsHealthy m l' step (Steps-IsHealthy l m d q)

  -- Of a receiver that `newLogsReceiver` made over a new client, however `Start`, the operations of
  -- the client in the collections, the end of the context and `Shutdown` interleave, and whatever
  -- the consumer, the clock and the services that connect and browse answer, provided that every
  -- page of the server with a continuation point has a record where one is asked for, and that
  -- `max_records_per_call` is below 2 ^ 32: from a `Start` that returned nil on the client has
  -- LogObject nodes; and until a `Shutdown` has come to disconnect the client, it has a connection
  -- whenever `GetRecords` is to be called, and no call of `GetRecords` ends with an error, whatever
  -- errors the calls for its pages end with.
  pub Reachable-IsHealthy :
      (b : Bool) (r : LogsReceiver) (w : g.World) (o : outside.World) (l : WholeLife)
      → ServerProgresses ua bufs g
      → pos_part config.max_records_per_call < 2 ^ 32
      → new_logs_receiver config b ≡ created r
      → Reachable pdata std
          (logged env)
          r
          ((new_opcua_client NodeId config, w, o), nothing_yet pdata std env)
          l
      → IsHealthy l
  Reachable-IsHealthy b r w o l p u h q =
      Steps-IsHealthy p u _ l
        (record {
          same = created-config pdata std env config b r h;
          nodes = λ e. absurd (e refl);
          connection = λ e. cc;
          answered = λ e. tt;
        })
        q
