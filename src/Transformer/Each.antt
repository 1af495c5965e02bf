-- ===== src/Transformer/Each.antt =====
-- `TransformLogs` of receiver/opcua/transformer.go, record by record.
use opentelemetry_collector.Common.{
  ℕ, zero, suc, ◌+◌, ◌≡◌, refl, ap, ◌∙◌, List, [], ◌∷◌, length, get_elem?, some, arith,
}
use mathlib.Core.Option
use opentelemetry_collector.Pdata.{PdataApi}
use opentelemetry_collector.Transformer.{
  Transformer, StdApi, transform_log_record, transform_records, transform_logs,
}
use opentelemetry_collector.Transformer.Attributes.{count-transform_logs}
use opentelemetry_collector.Value.{Time, OpcuaLogRecord}

module _ (pdata : PdataApi) (std : StdApi) where
  open pdata use {LogRecord, Logs, log_records, log_record_count, new_log_record}

  log_records-transform_logs :
      (t : Transformer) (clock : ℕ → Time) (rs : List OpcuaLogRecord)
      → log_records (transform_logs pdata std t clock rs) ≡ transform_records pdata std clock 0 rs
  unfolding transform_logs transform_records
  log_records-transform_logs t clock [] = pdata.log_records-new_logs
  log_records-transform_logs t clock (r ∷ rs) =
      rw (pdata.log_records-append, pdata.log_records-new_logs) refl

  filled_at :
      (clock : ℕ → Time) (rs : List OpcuaLogRecord) (i m n : ℕ)
      → m ≡ n
      → Option.map
          (λ (r : OpcuaLogRecord). transform_log_record pdata std (clock m) r new_log_record)
          (get_elem? rs i)
        ≡ Option.map
            (λ (r : OpcuaLogRecord). transform_log_record pdata std (clock n) r new_log_record)
            (get_elem? rs i)
  filled_at clock rs i m n e =
      ap
        (λ (k : ℕ).
          Option.map
            (λ (r : OpcuaLogRecord). transform_log_record pdata std (clock k) r new_log_record)
            (get_elem? rs i))
        e

  get_elem?-transform_records :
      (clock : ℕ → Time) (start i : ℕ) (rs : List OpcuaLogRecord)
      → get_elem? (transform_records pdata std clock start rs) i
        ≡ Option.map
            (λ (r : OpcuaLogRecord).
              transform_log_record pdata std (clock (start + i)) r new_log_record)
            (get_elem? rs i)
  unfolding transform_records
  get_elem?-transform_records clock start i [] = refl
  get_elem?-transform_records clock start zero (r ∷ rs) =
      ap (λ n. some (transform_log_record pdata std (clock n) r new_log_record)) (omega arith)
  get_elem?-transform_records clock start (suc i) (r ∷ rs) =
      get_elem?-transform_records clock (suc start) i rs
      ∙ filled_at clock rs i (suc start + i) (start + suc i) (omega arith)

  -- The logs have as many log records as there are records, and the log record at each place is the
  -- one that `transformLogRecord` fills from the record at that place, with the reading of the clock
  -- for that place.
  pub get_elem?-transform_logs :
      (t : Transformer) (clock : ℕ → Time) (rs : List OpcuaLogRecord)
      → (log_record_count (transform_logs pdata std t clock rs) ≡ length rs)
        × ((i : ℕ)
            → get_elem? (log_records (transform_logs pdata std t clock rs)) i
              ≡ Option.map
                  (λ (r : OpcuaLogRecord).
                    transform_log_record pdata std (clock i) r new_log_record)
                  (get_elem? rs i))
  get_elem?-transform_logs t clock rs = (
    count-transform_logs pdata std t clock rs,
    λ i.
        rw (log_records-transform_logs t clock rs)
          (get_elem?-transform_records clock 0 i rs ∙ filled_at clock rs i (0 + i) i (omega arith)),
  )
