-- ===== src/Receiver/History.antt =====
-- What the receiver of receiver/opcua/receiver.go asks of its client and hands to its consumer: an
-- environment that keeps the history of both.
use opentelemetry_collector.Common.{ℕ, ◌+◌, ◌≡◌, List, [], ◌∷◌, Option, none, some, length}
use opentelemetry_collector.Scraper.{Env}
use opentelemetry_collector.Value.{Time, OpcuaLogRecord, zero_time}

-- A call of `GetRecords` with its result; `none` is an error.
pub record Call : Type 0 where
  pub start_time : Time
  pub end_time : Time
  pub result : Option (List OpcuaLogRecord)

-- The calls and the logs handed on, the latest first.
pub record History (Logs : Type 0) : Type 0 where
  pub calls : List Call
  pub consumed : List Logs

-- Where the next time range has to begin: at the end of a call that succeeded, and again at the
-- start of one that failed.
abbrev pub resume : Call → Option (List OpcuaLogRecord) → Time
resume c none = c.start_time
resume c (some records) = c.end_time

-- The time ranges of the calls follow one another with no gap and no overlap, from the zero time
-- to `t`, the ranges of calls that failed asked for again.
unfoldable pub IsContiguous : List Call → Time → Type 0
IsContiguous [] t = t ≡ zero_time
IsContiguous (c ∷ calls) t = (t ≡ resume c c.result) × IsContiguous calls c.start_time

abbrev pub count_of : Option (List OpcuaLogRecord) → ℕ
count_of none = 0
count_of (some records) = length records

-- The number of records that the calls returned.
unfoldable pub records_received : List Call → ℕ
records_received [] = 0
records_received (c ∷ calls) = count_of c.result + records_received calls

-- The number of log records in the logs handed on.
unfoldable pub records_consumed : {Logs : Type 0} → (Logs → ℕ) → List Logs → ℕ
records_consumed log_record_count [] = 0
records_consumed log_record_count (logs ∷ consumed) =
    log_record_count logs + records_consumed log_record_count consumed

-- The environment that also keeps the history.
abbrev pub logged : {Logs : Type 0} → Env Logs → Env Logs
logged {Logs} env = record {
  World = env.World × History Logs;
  connect = λ (w, h). let (ok, w') = env.connect w in (ok, (w', h));
  disconnect = λ (w, h). let (ok, w') = env.disconnect w in (ok, (w', h));
  is_connected = λ (w, h). let (ok, w') = env.is_connected w in (ok, (w', h));
  get_records = λ start_time end_time max_records (w, h).
      let (result, w') = env.get_records start_time end_time max_records w in
      let call : Call = record { start_time = start_time; end_time = end_time; result = result } in
      (result, (w', record h { calls = call ∷ h.calls }));
  now = λ (w, h). let (t, w') = env.now w in (t, (w', h));
  readings = λ (w, h). let (clock, w') = env.readings w in (clock, (w', h));
  consume_logs = λ logs (w, h).
      let (ok, w') = env.consume_logs logs w in
      (ok, (w', record h { consumed = logs ∷ h.consumed }));
}
