-- ===== src/Receiver/Delivery.antt =====
-- The history of the collections of receiver/opcua/receiver.go and scraper.go.
use opentelemetry_collector.Common.{
  ◌≡◌, refl, sym, ap, Bool, true, false, Bool-cases, inl, inr, ◌==◌, List, [], ◌∷◌, Option, none,
  some, if◌then◌else◌, arith,
}
use opentelemetry_collector.Config.{Config, Verdict, valid, invalid, validate}
use opentelemetry_collector.Pdata.{PdataApi}
use opentelemetry_collector.Receiver.{
  LogsReceiver, created, refused, bad_config, new_logs_receiver, start, Event, context_done, ticked,
  pass_on, collect_and_consume, collection_loop, run_collection,
}
use opentelemetry_collector.Receiver.History.{
  History, IsContiguous, records_received, records_consumed, logged,
}
use opentelemetry_collector.Scraper.{
  Env, Scraper, new_scraper, start_scraper, collect, collect_connected, after_connect,
  finish_scrape, scrape,
}
use opentelemetry_collector.Transformer.{StdApi, transform_logs}
use opentelemetry_collector.Transformer.Attributes.{count-transform_logs}
use opentelemetry_collector.Value.{Time, OpcuaLogRecord, zero_time}

module _ (pdata : PdataApi) (std : StdApi) (env : Env (pdata.Logs)) where
  open pdata use {Logs, log_record_count}

  -- What has been asked for ends where the next time range begins, and every record that has come
  -- has been handed on.
  pub record IsDelivered (s : Scraper) (h : History Logs) : Type 0 where
    pub contiguous : IsContiguous h.calls s.last_collect_time
    pub count : records_consumed log_record_count h.consumed ≡ records_received h.calls

  abbrev After : Scraper × (env.World × History Logs) → Type 0
  After (s, (w, h)) = IsDelivered s h

  abbrev asked : Time → Option (List OpcuaLogRecord) → Scraper → History Logs → History Logs
  asked end_time result s h = record h {
    calls =
        record { start_time = s.last_collect_time; end_time = end_time; result = result } ∷ h.calls;
  }

  pass_on-finish_scrape :
      (s : Scraper) (end_time : Time) (result : Option (List OpcuaLogRecord)) (w : env.World)
      → (h : History Logs) → IsDelivered s h
      → After (
          pass_on pdata std (logged env) (
            finish_scrape pdata std
              (logged env)
              s
              end_time
              (result, (w, asked end_time result s h))))
  unfolding pass_on finish_scrape IsContiguous records_received records_consumed
  pass_on-finish_scrape s end_time none w h d = record {
    contiguous = (refl, d.contiguous);
    count = omega (arith, d.count);
  }
  pass_on-finish_scrape s end_time (some records) w h d =
      let clock = (env.readings w).0 in
      let all = count-transform_logs pdata std s.transformer clock records in
      elim (Bool-cases
        (log_record_count (transform_logs pdata std s.transformer clock records) == 0)) [
          | inl none_came ↦
              rw none_came
                (record { contiguous = (refl, d.contiguous); count = ground (arith, all, d.count) })
          | inr some_came ↦
              rw some_came
                (record { contiguous = (refl, d.contiguous); count = omega (arith, all, d.count) })
        ]

  collect-IsDelivered :
      (s : Scraper) (w : env.World) (h : History Logs)
      → IsDelivered s h
      → After (pass_on pdata std (logged env) (collect pdata std (logged env) s (w, h)))
  unfolding collect
  collect-IsDelivered s w h d = pass_on-finish_scrape s _ _ _ h d

  connected-IsDelivered :
      (s : Scraper) (w : env.World) (h : History Logs) (connected : Bool)
      → IsDelivered s h
      → After (
          pass_on pdata std
            (logged env)
            (collect_connected pdata std (logged env) s (connected, (w, h))))
  unfolding collect_connected after_connect pass_on
  connected-IsDelivered s w h true d = collect-IsDelivered s w h d
  connected-IsDelivered s w h false d = elim (Bool-cases (env.connect w).0) [
    | inl ok ↦ rw ok (collect-IsDelivered s _ h d)
    | inr failed ↦ rw failed d
  ]

  scrape-IsDelivered :
      (s : Scraper) (w : env.World) (h : History Logs) (there : Bool)
      → IsDelivered s h
      → After (
          pass_on pdata std (logged env) (
            if there
            then collect_connected pdata std (logged env) s ((logged env).is_connected (w, h))
            else (none, s, (w, h))))
  unfolding pass_on
  scrape-IsDelivered s w h true d = connected-IsDelivered s _ h _ d
  scrape-IsDelivered s w h false d = d

  pub collect_and_consume-IsDelivered :
      (s : Scraper) (w : env.World) (h : History Logs)
      → IsDelivered s h
      → After (collect_and_consume pdata std (logged env) s (w, h))
  unfolding collect_and_consume scrape
  collect_and_consume-IsDelivered s w h d = scrape-IsDelivered s w h s.has_client d

  collection_loop-IsDelivered :
      (events : List Event) (at : Scraper × (env.World × History Logs))
      → After at
      → let (returned, s, w) = collection_loop pdata std (logged env) events at in After (s, w)
  unfolding collection_loop
  collection_loop-IsDelivered [] (s, (w, h)) d = d
  collection_loop-IsDelivered (context_done ∷ events) (s, (w, h)) d = d
  collection_loop-IsDelivered (ticked ∷ events) (s, (w, h)) d =
      collection_loop-IsDelivered events (collect_and_consume pdata std (logged env) s (w, h))
        (collect_and_consume-IsDelivered s w h d)

  abbrev pub nothing_yet : History Logs
  nothing_yet = record { calls = []; consumed = [] }

  pub fresh-IsDelivered :
      (s : Scraper) → s.last_collect_time ≡ zero_time → IsDelivered s nothing_yet
  unfolding IsContiguous records_received records_consumed
  fresh-IsDelivered s h = record { contiguous = h; count = refl }

  launch :
      List Event
      → Bool × LogsReceiver × (env.World × History Logs)
      → LogsReceiver × (env.World × History Logs)
  launch events (true, r, w) = run_collection pdata std (logged env) events r w
  launch events (false, r, w) = (r, w)

  launch-IsDelivered :
      (events : List Event) (ok : Bool) (r : LogsReceiver) (w : env.World) (h : History Logs)
      → IsDelivered r.scraper h
      → let (r', (w', h')) = launch events (ok, r, (w, h)) in IsDelivered r'.scraper h'
  unfolding launch run_collection
  launch-IsDelivered events true r w h d =
      collection_loop-IsDelivered events _ (collect_and_consume-IsDelivered r.scraper w h d)
  launch-IsDelivered events false r w h d = d

  -- The receiver and the history after `Start` and, if it returned nil, the collections.
  unfoldable pub run :
      LogsReceiver → List Event → env.World → LogsReceiver × (env.World × History Logs)
  unfolding launch
  run r events w = launch events (start pdata std (logged env) r (w, nothing_yet))

  decided :
      (v : Verdict) (made r : LogsReceiver)
      → (elim v [ valid ↦ created made | invalid e ↦ refused (bad_config e) ]) ≡ created r
      → made ≡ r
  decided valid made r h = cc
  decided (invalid e) made r h = cc

  pub created-fresh :
      (config : Config) (b : Bool) (r : LogsReceiver)
      → new_logs_receiver config b ≡ created r
      → r.scraper.last_collect_time ≡ zero_time
  unfolding new_logs_receiver new_scraper
  created-fresh config false r h = cc
  created-fresh config true r h =
      ap (λ (made : LogsReceiver). made.scraper.last_collect_time)
        (sym (decided (validate config) _ r h))

  pub created-open :
      (config : Config) (b : Bool) (r : LogsReceiver)
      → new_logs_receiver config b ≡ created r
      → r.done ≡ false
  unfolding new_logs_receiver
  created-open config false r h = cc
  created-open config true r h =
      ap (λ (made : LogsReceiver). made.done) (sym (decided (validate config) _ r h))

  pub created-config :
      (config : Config) (b : Bool) (r : LogsReceiver)
      → new_logs_receiver config b ≡ created r
      → r.scraper.config ≡ config
  unfolding new_logs_receiver new_scraper
  created-config config false r h = cc
  created-config config true r h =
      ap (λ (made : LogsReceiver). made.scraper.config) (sym (decided (validate config) _ r h))

  -- Whatever the client, the consumer and the clock answer, and whenever the context is done: of a
  -- receiver that `newLogsReceiver` made, the time ranges that the collections ask for follow one
  -- another from the zero time on with no gap and no overlap, a range that failed being asked for
  -- again, and the logs handed to the consumer hold as many log records as the client returned
  -- records.
  pub run-IsDelivered :
      (config : Config) (b : Bool) (r : LogsReceiver) (events : List Event) (w : env.World)
      → new_logs_receiver config b ≡ created r
      → IsDelivered (run r events w).0.scraper (run r events w).1.1
  unfolding run start start_scraper
  run-IsDelivered config b r events w h =
      launch-IsDelivered events _ _ _ nothing_yet (fresh-IsDelivered _ (created-fresh config b r h))
