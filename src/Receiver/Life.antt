-- ===== src/Receiver/Life.antt =====
-- The life of a receiver of receiver/opcua/receiver.go as steps: the goroutine of `runCollection`,
-- whose collections give up the client's mutex between its operations, interleaved with `Start`,
-- with the end of the context that `Start` was given, and with `Shutdown`, which may give up its wait
-- at any moment.
pub mod Sound
pub mod Whole
use opentelemetry_collector.Common.{◌≡◌, Bool, true, false, List, Option}
use opentelemetry_collector.Pdata.{PdataApi}
use opentelemetry_collector.Receiver.{LogsReceiver, start, cancel, pass_on}
use opentelemetry_collector.Scraper.{Env, finish_scrape, shutdown_scraper}
use opentelemetry_collector.Transformer.{StdApi}
use opentelemetry_collector.Value.{Time, OpcuaLogRecord}

-- Where the goroutine stands: not launched; in a collection, before `IsConnected`, before `Connect`,
-- before `GetRecords`, or with the end of the time range and the result of `GetRecords` in hand; in
-- its `select`; or returned.
pub data Phase : Type 0 where
  idle testing connecting asking selecting returned : Phase
  handing : Time → Option (List OpcuaLogRecord) → Phase

-- `shut` tells whether a `Shutdown` has come to shut the scraper down.
pub record Life (World : Type 0) : Type 0 where
  pub receiver : LogsReceiver
  pub phase : Phase
  pub world : World
  pub shut : Bool

abbrev pub at_phase : {World : Type 0} → Phase → LogsReceiver → World → Bool → Life World
at_phase phase r w shut = record { receiver = r; phase = phase; world = w; shut = shut }

module _ (pdata : PdataApi) (std : StdApi) (env : Env (pdata.Logs)) where
  open env use {World, connect, is_connected, get_records, now}

  -- The end of the time range, the result of `GetRecords`, and the world after it.
  abbrev pub asked : LogsReceiver → World → Time × Option (List OpcuaLogRecord) × World
  asked r w =
      let (end_time, w') = now w in
      let (result, w'') =
        get_records r.scraper.last_collect_time end_time r.scraper.config.max_records_per_call w' in
      (end_time, result, w'')

  -- The receiver and the world after the last part of a collection: `scrape` from the answer of
  -- `GetRecords` on, and `collectAndConsume` from the answer of `scrape` on.
  abbrev pub handed :
      LogsReceiver → Time → Option (List OpcuaLogRecord) → World → LogsReceiver × World
  handed r end_time result w =
      let (s, w') =
        pass_on pdata std env (finish_scrape pdata std env r.scraper end_time (result, w)) in
      (record r { scraper = s }, w')

  -- `launched` and `start_failed`: `Start`. `test_nil`, `test_up` and `test_down`: the test of
  -- `scrape`, by `IsConnected`. `connected` and `connect_failed`: its `Connect`. `ask`: `time.Now` and
  -- `GetRecords`. `hand_on`: the rest of the collection. `tick` and `leave`: the `select`.
  -- `parent_done`: the context given to `Start` ends. `begin_shutdown` and `end_shutdown`: the first
  -- and the last part of `Shutdown`, between which it waits.
  pub data Step : Life World → Life World → Type 0 where
    launched :
        (r : LogsReceiver) (w : World) (shut : Bool)
        → (start pdata std env r w).0 ≡ true
        → Step
            (at_phase idle r w shut)
            (at_phase testing (start pdata std env r w).1 (start pdata std env r w).2 shut)
    start_failed :
        (r : LogsReceiver) (w : World) (shut : Bool)
        → (start pdata std env r w).0 ≡ false
        → Step
            (at_phase idle r w shut)
            (at_phase idle (start pdata std env r w).1 (start pdata std env r w).2 shut)
    test_nil :
        (r : LogsReceiver) (w : World) (shut : Bool)
        → r.scraper.has_client ≡ false
        → Step (at_phase testing r w shut) (at_phase selecting r w shut)
    test_up :
        (r : LogsReceiver) (w : World) (shut : Bool)
        → r.scraper.has_client ≡ true
        → (is_connected w).0 ≡ true
        → Step (at_phase testing r w shut) (at_phase asking r (is_connected w).1 shut)
    test_down :
        (r : LogsReceiver) (w : World) (shut : Bool)
        → r.scraper.has_client ≡ true
        → (is_connected w).0 ≡ false
        → Step (at_phase testing r w shut) (at_phase connecting r (is_connected w).1 shut)
    connected :
        (r : LogsReceiver) (w : World) (shut : Bool)
        → (connect w).0 ≡ true
        → Step (at_phase connecting r w shut) (at_phase asking r (connect w).1 shut)
    connect_failed :
        (r : LogsReceiver) (w : World) (shut : Bool)
        → (connect w).0 ≡ false
        → Step (at_phase connecting r w shut) (at_phase selecting r (connect w).1 shut)
    ask :
        (r : LogsReceiver) (w : World) (shut : Bool)
        → Step
            (at_phase asking r w shut)
            (at_phase (handing (asked r w).0 (asked r w).1) r (asked r w).2 shut)
    hand_on :
        (r : LogsReceiver) (w : World) (shut : Bool) (end_time : Time)
        (result : Option (List OpcuaLogRecord))
        → Step
            (at_phase (handing end_time result) r w shut)
            (at_phase selecting (handed r end_time result w).0 (handed r end_time result w).1 shut)
    tick :
        (r : LogsReceiver) (w : World) (shut : Bool)
        → Step (at_phase selecting r w shut) (at_phase testing r w shut)
    leave :
        (r : LogsReceiver) (w : World) (shut : Bool)
        → r.cancelled ≡ true
        → Step (at_phase selecting r w shut) (at_phase returned (record r { done = true }) w shut)
    parent_done :
        (l : Life World) → Step l (record l { receiver = record l.receiver { cancelled = true } })
    begin_shutdown : (l : Life World) → Step l (record l { receiver = cancel l.receiver })
    end_shutdown :
        (l : Life World)
        → Step l (record l {
          world = (shutdown_scraper pdata std env l.receiver.scraper l.world).1;
          shut = true;
        })

  -- What can come of a life.
  pub data Steps (l : Life World) : Life World → Type 0 where
    here : Steps l l
    after : (m n : Life World) → Steps l m → Step m n → Steps l n

  -- What can come of a receiver that has not been started.
  abbrev pub Reachable : LogsReceiver → World → Life World → Type 0
  Reachable r w l = Steps (at_phase idle r w false) l
