-- ===== src/Scraper.antt =====
-- receiver/opcua/scraper.go: the scraper, over the interface of its client.
use opentelemetry_collector.Common.{
  ℕ, Bool, true, false, List, Option, none, some, ℤ, if◌then◌else◌,
}
use opentelemetry_collector.Config.{Config}
use opentelemetry_collector.Pdata.{PdataApi}
use opentelemetry_collector.Transformer.{Transformer, StdApi, new_transformer, transform_logs}
use opentelemetry_collector.Value.{Time, OpcuaLogRecord, zero_time}

-- Everything outside the receiver, with a state of its own: the client behind the `OPCUAClient`
-- interface, the next consumer, and the clock. A Bool tells whether an operation returned nil.
pub record Env (Logs : Type 0) : Type 1 where
  pub World : Type 0
  pub connect : World → Bool × World
  pub disconnect : World → Bool × World
  pub is_connected : World → Bool × World
  -- `GetRecords`; `none` is an error.
  pub get_records : Time → Time → ℤ → World → Option (List OpcuaLogRecord) × World
  pub now : World → Time × World
  -- The readings of the clock in the loop of `TransformLogs`, one for each record.
  pub readings : World → (ℕ → Time) × World
  pub consume_logs : Logs → World → Bool × World

-- `scraper`; the client is nil until `start`.
pub record Scraper : Type 0 where
  pub config : Config
  pub transformer : Transformer
  pub has_client : Bool
  pub last_collect_time : Time

-- `newScraper`
unfoldable pub new_scraper : Config → Scraper
new_scraper config = record {
  config = config;
  transformer =
      new_transformer config.endpoint config.resource.service_name
        config.resource.service_namespace;
  has_client = false;
  last_collect_time = zero_time;
}

module _ (pdata : PdataApi) (std : StdApi) (env : Env (pdata.Logs)) where
  open pdata use {Logs}
  open env use {World, connect, disconnect, is_connected, get_records, now, readings}

  -- `start`
  unfoldable pub start_scraper : Scraper → World → Bool × Scraper × World
  start_scraper s w = let (ok, w') = connect w in (ok, record s { has_client = true }, w')

  -- `shutdown`
  unfoldable pub shutdown_scraper : Scraper → World → Bool × World
  shutdown_scraper s w = if s.has_client then disconnect w else (true, w)

  -- What follows the answer of `GetRecords`.
  unfoldable pub finish_scrape :
      Scraper → Time → Option (List OpcuaLogRecord) × World → Option Logs × Scraper × World
  finish_scrape s end_time (none, w) = (none, s, w)
  finish_scrape s end_time (some records, w) =
      let (clock, w') = readings w in
      (
        some (transform_logs pdata std s.transformer clock records),
        record s { last_collect_time = end_time },
        w',
      )

  unfoldable pub collect : Scraper → World → Option Logs × Scraper × World
  collect s w =
      let (end_time, w') = now w in
      finish_scrape s end_time
        (get_records s.last_collect_time end_time s.config.max_records_per_call w')

  unfoldable pub after_connect : Scraper → Bool × World → Option Logs × Scraper × World
  after_connect s (true, w) = collect s w
  after_connect s (false, w) = (none, s, w)

  unfoldable pub collect_connected : Scraper → Bool × World → Option Logs × Scraper × World
  collect_connected s (true, w) = collect s w
  collect_connected s (false, w) = after_connect s (connect w)

  -- `scrape`; `none` is an error, with which the code returns empty logs that nothing reads.
  unfoldable pub scrape : Scraper → World → Option Logs × Scraper × World
  unfolding collect_connected after_connect collect finish_scrape
  scrape s w = if s.has_client then collect_connected s (is_connected w) else (none, s, w)
