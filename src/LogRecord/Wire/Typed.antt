-- ===== src/LogRecord/Wire/Typed.antt =====
-- Sequences of buffer reads, as receiver/opcua/log_record_type.go makes them, on bytes of any kind.
use opentelemetry_collector.Common.{Bool, true, false, if◌then◌else◌}
use opentelemetry_collector.Ua.Buffers.{BufferApi, Yields}
use opentelemetry_collector.LogRecord.Wire.{◌>>=◌, return}

module _ (bufs : BufferApi) where
  open bufs use {Buffer}

  pub Yields-return : {V : Type 0} {P : V → Type 0} (v : V) → P v → Yields bufs P (return v)
  Yields-return v h = record { run = λ b are. (h, are) }

  pub Yields-bind :
      {V W : Type 0} {P : V → Type 0} {Q : W → Type 0} {m : Buffer → V × Buffer}
      {f : V → Buffer → W × Buffer}
      → Yields bufs P m
      → ((v : V) → P v → Yields bufs Q (f v))
      → Yields bufs Q (m >>= f)
  unfolding ◌>>=◌
  Yields-bind y k = record { run = λ b are. let (h, are') = y.run b are in (k _ h).run _ are' }

  pub Yields-if :
      {V : Type 0} {P : V → Type 0} (b : Bool) {m k : Buffer → V × Buffer}
      → Yields bufs P m
      → Yields bufs P k
      → Yields bufs P (if b then m else k)
  Yields-if true y y' = y
  Yields-if false y y' = y'
