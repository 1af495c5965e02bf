-- ===== src/Tests/WireTests.antt =====
-- Runs of receiver/opcua/log_record_type.go on a concrete library.
use opentelemetry_collector.Common.{
  ◌≡◌, ◌↔◌, refl, [], ◌∷◌, none, some, length, pos, negsuc, FitsInt64, Dict, arith,
}
use opentelemetry_collector.Value.{Value, zero_time, int, uint16}
use opentelemetry_collector.LogRecord.Clock.{
  decode_time, encode_ticks, instant, decode_time-encode_ticks, decode_time-instant_iff,
}
use opentelemetry_collector.LogRecord.Codec.{LogRecordExtObj, fresh, decode, encode}
use opentelemetry_collector.LogRecord.Printed.{PrintApi, to_string}
use opentelemetry_collector.Common.{lit}
use opentelemetry_collector.LogRecord.Hex.{hex_padded}
use opentelemetry_collector.Records.{digits, decimal}
use opentelemetry_collector.LogRecord.Codec.RoundTrip.{IsWire, record_image, decode-encode}
use opentelemetry_collector.Ua.Concrete.{Node, name, node_ids, buffers}

abbrev pub sample_data : Dict Value
sample_data = (b'k' ∷ [], int 5) ∷ (b'u' ∷ [], uint16 9) ∷ []

abbrev pub sample : LogRecordExtObj Node
sample = record {
  time = pos 1700000000123456789;
  severity = 275;
  message = b'h' ∷ b'i' ∷ [];
  event_type_node = none;
  source_node = some (name 1 (b'P' ∷ []));
  source_name = b'S' ∷ [];
  trace_id_bytes = 1 ∷ 2 ∷ 3 ∷ 4 ∷ 5 ∷ 6 ∷ 7 ∷ 8 ∷ 9 ∷ 10 ∷ 11 ∷ 12 ∷ 13 ∷ 14 ∷ 15 ∷ 16 ∷ [];
  span_id = 258;
  parent_span_id = 0;
  parent_identifier = [];
  additional_data = sample_data;
}

pub sample-IsWire : IsWire node_ids buffers sample
sample-IsWire = record {
  time = omega arith;
  severity = omega arith;
  event_type_node = tt;
  source_node = omega arith;
  source_name = omega arith;
  message = omega arith;
  trace_id_length = refl;
  trace_id_bytes = omega arith;
  span_id = omega arith;
  parent_span_id = omega arith;
  parent_identifier = omega arith;
  additional_data = omega arith;
  entries = omega arith;
}

decode-encode_example :
    decode node_ids buffers (fresh Node) (encode node_ids buffers sample).0
    ≡ (record_image node_ids buffers sample, length (encode node_ids buffers sample).0, none)
decode-encode_example = decode-encode node_ids buffers sample sample-IsWire

-- The zero time is outside the years that `Encode` can write, and comes back as a time in 1754.
zero_time_moves : decode_time (encode_ticks zero_time) zero_time ≡ negsuc 6795364578871345099
unfolding decode_time encode_ticks
zero_time_moves = refl

decode_time-encode_ticks_example : decode_time (encode_ticks (pos 1234567)) (pos 0) ≡ pos 1234500
decode_time-encode_ticks_example = decode_time-encode_ticks (pos 1234567) (pos 0) (omega arith)

-- One tick after the epoch of 1601, far from what nanoseconds in an int64 reach.
decode_time-instant_iff_example : (decode_time 1 (pos 0) ≡ instant 1) ↔ FitsInt64 (instant 1)
decode_time-instant_iff_example = decode_time-instant_iff 1 (pos 0) (omega arith) (omega arith)

abbrev bare : PrintApi
bare = record { format_rfc3339 = λ t. lit "0001"; quote = λ s. s }

fresh_printed :
    to_string node_ids bare (fresh Node)
    ≡ lit
        "LogRecord{Time: 0001, Severity: 0, Message: , SourceName: , SourceNode: , TraceID: , SpanID: 0000000000000000, AdditionalData: 0}"
unfolding to_string fresh hex_padded digits decimal lit
fresh_printed = refl
