-- ===== src/Receiver.antt =====
-- receiver/opcua/receiver.go: the receiver's life, and its loop of collections.
pub mod History
pub mod Delivery
pub mod Life
use opentelemetry_collector.Common.{
  ℕ, Bool, true, false, ◌==◌, List, [], ◌∷◌, Option, none, some, if◌then◌else◌,
}
use opentelemetry_collector.Config.{Config, ConfigError, Verdict, valid, invalid, validate}
use opentelemetry_collector.Pdata.{PdataApi}
use opentelemetry_collector.Scraper.{
  Env, Scraper, new_scraper, start_scraper, shutdown_scraper, scrape,
}
use opentelemetry_collector.Transformer.{StdApi}

-- `logsReceiver`: `cancelled` tells whether the context of the collections has been cancelled,
-- `has_cancel` whether it has been made, and `done` whether the channel is closed.
pub record LogsReceiver : Type 0 where
  pub config : Config
  pub scraper : Scraper
  pub has_cancel : Bool
  pub cancelled : Bool
  pub done : Bool

pub data NewError : Type 0 where
  nil_consumer : NewError
  bad_config : ConfigError → NewError

pub data NewResult : Type 0 where
  created : LogsReceiver → NewResult
  refused : NewError → NewResult

-- `newLogsReceiver`; the Bool tells whether there is a consumer.
unfoldable pub new_logs_receiver : Config → Bool → NewResult
new_logs_receiver config false = refused nil_consumer
new_logs_receiver config true = elim (validate config) [
  | valid ↦ created (record {
    config = config;
    scraper = new_scraper config;
    has_cancel = false;
    cancelled = false;
    done = false;
  })
  | invalid e ↦ refused (bad_config e)
]

-- `createLogsReceiver` of receiver/opcua/factory.go.
unfoldable pub create_logs_receiver : Config → Bool → NewResult
create_logs_receiver config consumer = new_logs_receiver config consumer

-- What the `select` of `runCollection` takes up.
pub data Event : Type 0 where
  context_done ticked : Event

-- The first lines of `Shutdown`.
unfoldable pub cancel : LogsReceiver → LogsReceiver
cancel r = if r.has_cancel then record r { cancelled = true } else r

module _ (pdata : PdataApi) (std : StdApi) (env : Env (pdata.Logs)) where
  open pdata use {Logs, log_record_count}
  open env use {World, consume_logs}

  unfoldable pub pass_on : Option Logs × Scraper × World → Scraper × World
  pass_on (none, s, w) = (s, w)
  pass_on (some logs, s, w) =
      if log_record_count logs == 0 then (s, w) else let (ok, w') = consume_logs logs w in (s, w')

  -- `collectAndConsume`
  unfoldable pub collect_and_consume : Scraper → World → Scraper × World
  unfolding pass_on
  collect_and_consume s w = pass_on (scrape pdata std env s w)

  -- The `for` loop of `runCollection`, and whether it returned; a list of events that ends before
  -- leaves it in its `select`.
  unfoldable pub collection_loop : List Event → Scraper × World → Bool × Scraper × World
  collection_loop [] (s, w) = (false, s, w)
  collection_loop (context_done ∷ events) (s, w) = (true, s, w)
  collection_loop (ticked ∷ events) (s, w) = collection_loop events (collect_and_consume s w)

  -- `runCollection`; `done` is closed when it returns.
  unfoldable pub run_collection : List Event → LogsReceiver → World → LogsReceiver × World
  run_collection events r w =
      let (returned, s, w') = collection_loop events (collect_and_consume r.scraper w) in
      (record r { scraper = s; done = returned }, w')

  -- `Start`: whether it returned nil, in which case it has launched `runCollection`.
  unfoldable pub start : LogsReceiver → World → Bool × LogsReceiver × World
  start r w =
      let (ok, s, w') = start_scraper pdata std env r.scraper w in
      (ok, record r { scraper = s; has_cancel = true; cancelled = false }, w')

  -- `Shutdown`: it cancels, waits for `done` or a time limit, and shuts the scraper down whichever
  -- comes first.
  unfoldable pub shutdown : LogsReceiver → World → Bool × LogsReceiver × World
  shutdown r w = let (ok, w') = shutdown_scraper pdata std env r.scraper w in (ok, cancel r, w')
