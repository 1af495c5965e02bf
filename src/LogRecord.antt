-- ===== src/LogRecord.antt =====
-- The LogRecord extension object of receiver/opcua/log_record_type.go: its time and trace
-- conversions, the node and variant codecs, `Decode` and `Encode`.
pub mod Clock
pub mod Hex
pub mod Wire
pub mod TraceId
pub mod Nodes
pub mod Variants
pub mod Codec
pub mod Printed
