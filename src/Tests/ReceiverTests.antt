-- ===== src/Tests/ReceiverTests.antt =====
-- A run of receiver/opcua/receiver.go.
use opentelemetry_collector.Common.{
  ℕ, ◌+◌, ◌≡◌, refl, true, false, [], ◌∷◌, some, pos, lit, text_eq, has_prefix,
}
use opentelemetry_collector.Config.{validate, create_default_config, contains}
use opentelemetry_collector.Pdata.Concrete.{pdata}
use opentelemetry_collector.Receiver.{
  start, cancel, LogsReceiver, created, new_logs_receiver, ticked, context_done,
}
use opentelemetry_collector.Receiver.Delivery.{nothing_yet, IsDelivered, run, run-IsDelivered}
use opentelemetry_collector.Receiver.History.{logged}
use opentelemetry_collector.Receiver.Life.{
  Life, at_phase, asking, returned, asked, handed, Reachable, here, after, launched, test_up, ask,
  hand_on, tick, leave, begin_shutdown, end_shutdown,
}
use opentelemetry_collector.Receiver.Life.Sound.{IsSound, Reachable-IsSound}
use opentelemetry_collector.Receiver.{pass_on}
use opentelemetry_collector.Transformer.{transform_logs, transform_records}
use opentelemetry_collector.Scraper.{finish_scrape, shutdown_scraper}
use opentelemetry_collector.Scraper.{Env, new_scraper, start_scraper}
use opentelemetry_collector.Tests.RecordTests.{std, opcua_record}

-- A client that returns one record each time, with a clock that counts its readings.
abbrev env : Env (pdata.Logs)
env = record {
  World = ℕ;
  connect = λ w. (true, w);
  disconnect = λ w. (true, w);
  is_connected = λ w. (true, w);
  get_records = λ start_time end_time max_records w. (some (opcua_record ∷ []), w);
  now = λ w. (pos w, w + 1);
  readings = λ w. ((λ i. pos w), w);
  consume_logs = λ logs w. (true, w);
}

abbrev pub receiver : LogsReceiver
receiver = record {
  config = create_default_config;
  scraper = new_scraper create_default_config;
  has_cancel = false;
  cancelled = false;
  done = false;
}

pub receiver-created : new_logs_receiver create_default_config true ≡ created receiver
unfolding new_logs_receiver validate create_default_config contains lit text_eq has_prefix
    new_scraper
receiver-created = refl

run-IsDelivered_example :
    let at = run pdata std env receiver (ticked ∷ ticked ∷ context_done ∷ []) 100 in
    IsDelivered pdata std env at.0.scraper at.1.1
run-IsDelivered_example =
    run-IsDelivered pdata std env create_default_config true receiver
      (ticked ∷ ticked ∷ context_done ∷ []) 100 receiver-created

abbrev LoggedWorld : Type 0
LoggedWorld = (logged env).World

-- The receiver after `Start`, before its first collection.
abbrev begun : LogsReceiver × LoggedWorld
begun =
    let (ok, r, w) = start pdata std (logged env) receiver (100, nothing_yet pdata std env) in
    (r, w)

-- After the first collection.
abbrev collected_once : LogsReceiver × LoggedWorld
collected_once =
    let (end_time, result, w) = asked pdata std (logged env) begun.0 begun.1 in
    handed pdata std (logged env) begun.0 end_time result w

-- The life at the end: the context has ended during the second collection, `Shutdown` has given up
-- its wait and disconnected, and the goroutine has returned.
abbrev collected_twice : LogsReceiver × LoggedWorld
collected_twice =
    let r = cancel collected_once.0 in
    let w = (shutdown_scraper pdata std (logged env) r.scraper collected_once.1).1 in
    let (end_time, result, w') = asked pdata std (logged env) r w in
    handed pdata std (logged env) r end_time result w'

abbrev ended : Life LoggedWorld
ended = at_phase returned (record collected_twice.0 { done = true }) collected_twice.1 true

-- The second collection has tested the connection when `Shutdown` disconnects.
once-Reachable :
    Reachable pdata std
      (logged env)
      receiver
      (100, nothing_yet pdata std env)
      (at_phase asking collected_once.0 collected_once.1 false)
unfolding start start_scraper pass_on finish_scrape new_scraper transform_logs transform_records
once-Reachable =
    let start_life =
      after _ _ here (launched receiver (100, nothing_yet pdata std env) false refl) in
    let tested = after _ _ start_life (test_up begun.0 begun.1 false refl refl) in
    let has_asked = after _ _ tested (ask begun.0 begun.1 false) in
    let done_once = after _ _ has_asked (hand_on begun.0 _ false _ _) in
    after _ _ (after _ _ done_once (tick collected_once.0 collected_once.1 false))
      (test_up collected_once.0 collected_once.1 false refl refl)

ended-Reachable : Reachable pdata std (logged env) receiver (100, nothing_yet pdata std env) ended
unfolding start start_scraper pass_on finish_scrape new_scraper cancel shutdown_scraper
ended-Reachable =
    let cancelled = after _ _ once-Reachable (begin_shutdown _) in
    let disconnected = after _ _ cancelled (end_shutdown _) in
    let has_asked = after _ _ disconnected (ask _ _ true) in
    after _ _ (after _ _ has_asked (hand_on _ _ true _ _)) (leave _ _ true refl)

Reachable-IsSound_example : IsSound pdata std env ended
Reachable-IsSound_example =
    Reachable-IsSound pdata std env create_default_config true receiver 100 ended receiver-created
      ended-Reachable
