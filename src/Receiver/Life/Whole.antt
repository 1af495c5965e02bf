-- ===== src/Receiver/Life/Whole.antt =====
-- The steps of a collection that nothing interrupts, and `collectAndConsume` of
-- receiver/opcua/receiver.go.
use opentelemetry_collector.Common.{Bool, Option}
use opentelemetry_collector.Pdata.{PdataApi}
use opentelemetry_collector.Receiver.{LogsReceiver, collect_and_consume, pass_on}
use opentelemetry_collector.Receiver.Life.{Life, at_phase, selecting}
use opentelemetry_collector.Scraper.{Env, Scraper}
use opentelemetry_collector.Transformer.{StdApi}

module _ (pdata : PdataApi) (std : StdApi) (env : Env (pdata.Logs)) where
  open pdata use {Logs}
  open env use {World, is_connected, connect}

  -- The life after the answer of `scrape` has been passed on.
  abbrev passed : LogsReceiver → Option Logs × Scraper × World → Bool → Life World
  passed r out shut =
      let (s, w') = pass_on pdata std env out in
      at_phase selecting (record r { scraper = s }) w' shut

  -- The life after `collectAndConsume`.
  abbrev pub collected : LogsReceiver → World → Bool → Life World
  collected r w shut =
      let (s, w') = collect_and_consume pdata std env r.scraper w in
      at_phase selecting (record r { scraper = s }) w' shut
