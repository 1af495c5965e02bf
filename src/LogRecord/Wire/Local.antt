-- ===== src/LogRecord/Wire/Local.antt =====
-- Sequences of buffer reads, as receiver/opcua/log_record_type.go makes them, where the bytes are cut
-- short.
use opentelemetry_collector.Common.{refl, inl, inr, Bool, true, false, if◌then◌else◌}
use opentelemetry_collector.Ua.Buffers.{BufferApi, Local}
use opentelemetry_collector.LogRecord.Wire.{◌>>=◌, return}

module _ (bufs : BufferApi) where
  open bufs use {Buffer, unread, error}

  pub Local-return : {V : Type 0} (v : V) → Local bufs (return v)
  Local-return v = record {
    keeps = λ b h. h;
    local = λ b whole rest ok ok' e. inr (refl, ok, ok', e);
  }

  pub Local-bind :
      {V W : Type 0} {m : Buffer → V × Buffer} {f : V → Buffer → W × Buffer}
      → Local bufs m
      → ((v : V) → Local bufs (f v))
      → Local bufs (m >>= f)
  unfolding ◌>>=◌
  Local-bind {m = m} {f = f} l k = record {
    keeps = λ b h. (k (m b).0).keeps _ (l.keeps b h);
    local = λ b whole rest ok ok' e. elim (l.local b whole rest ok ok' e) [
      | inl short ↦ inl ((k (m b).0).keeps _ short)
      | inr (same, ok1, ok1', left) ↦
          rw (← same, ◌>>=◌) ((k (m b).0).local (m b).1 (m whole).1 rest ok1 ok1' left)
    ];
  }

  pub Local-if :
      {V : Type 0} (b : Bool) {m k : Buffer → V × Buffer}
      → Local bufs m
      → Local bufs k
      → Local bufs (if b then m else k)
  Local-if true l l' = l
  Local-if false l l' = l'
