-- ===== src/Lib.antt =====
-- The OpenTelemetry Collector receiver for OPC UA logs (receiver/opcua): a client pages through the
-- log records of an OPC UA server, a codec and a parser turn the answers into records, a
-- transformer turns these into OpenTelemetry logs, and the receiver's loop hands the logs to the
-- next consumer.
--
-- How the parts work together: `newLogsReceiver` validates the configuration and makes the scraper
-- (receiver.go, config.go, scraper.go). `Start` connects the client, which selects an endpoint and
-- discovers the LogObject nodes (client.go). Every tick, `collectAndConsume` has the scraper ask the
-- client for the records between the end of the last time range and now. `GetRecords` calls the
-- method of that name on every node, page after page (client.go, get_records.go); the records are
-- extension objects in the binary encoding of log_record_type.go. `TransformLogs` (transformer.go)
-- maps severities, attributes and the trace context. testdata/mock_server.go and mock_client.go are
-- the server and the client of the tests, and testdata/generator.go draws records for them.
--
-- The files:
--   Common        tests on numbers, lists, integers and texts that all the files share
--   Config        receiver/opcua/config.go and createDefaultConfig of factory.go
--   Severity      mapSeverity, severityToText (transformer.go), getMinSeverityValue (get_records.go)
--   Value         Go values behind interface{}, and OPCUALogRecord (testdata/types.go)
--   Ua            gopcua's node identifiers and buffers as interfaces with laws; Ua/Concrete has them
--   LogRecord     receiver/opcua/log_record_type.go: Clock the times, Hex the printed identifiers,
--                 Wire a state monad over the buffer, TraceId, Nodes and Variants the parts, Codec
--                 Decode and Encode, Printed String; a module Local is about bytes that are cut
--                 short, and a module Typed about bytes of any kind
--   Records       receiver/opcua/get_records.go: conversion of records, and the parsers in Parse
--   Pdata         the collector's pdata as an interface with laws; Pdata/Concrete has them
--   Transformer   receiver/opcua/transformer.go
--   Client        receiver/opcua/client.go: Paging the loops of GetRecords, Endpoints selectEndpoint,
--                 Discovery Connect and what it uses, Calls callGetRecordsMethod and GetRecords
--   Scraper       receiver/opcua/scraper.go, over the OPCUAClient interface
--   Receiver      receiver/opcua/receiver.go and createLogsReceiver of factory.go; History keeps
--                 what was asked for and handed on, and Life is its step relation, in which a
--                 collection is several steps, between which the client's mutex is free, the
--                 context of Start may end, and Shutdown may give up its wait at any moment
--   Pipeline      the parts together: the environment of the scraper that the receiver's own client
--                 makes, one collection from the server to the consumer, the receiver's life, and the
--                 additional data and the trace context of a record on its way
--   Mock          receiver/opcua/testdata/mock_server.go, its call handler in Handler, and
--                 receiver/opcua/testdata/mock_client.go in Client, and generator.go beside them in
--                 Generator, with what is drawn at random as an argument
--   Tests         concrete runs
--
-- Conventions: a Go string is a list of bytes; a time is its nanoseconds since 1970 as an unbounded
-- integer, and the conversions from and to ticks wrap as int64 does; a value of a fixed width is its
-- bit pattern; a map is an association list in the order of its range; a pointer is an Option. An
-- error is `none` or a constructor, without its text. What is behind an interface (the server, the
-- consumer, the clock) has a state of its own that each operation may change.
--
-- Bounds and fuel: the loops over the pages of a node run on fuel; one more than the number of
-- records asked for is enough where every page that goes on has a record. Decimal printing has
-- 10 digits, enough for a uint32, and 20 for an int. A limit is below 2 ^ 32, since it is sent as a uint32.
--
-- Not modelled: logging, time limits, and the registration of the factory and of the extension object
-- types. A context is whether it has ended, and is read by the receiver's loop alone. Each operation
-- of the client is one step, GetRecords too, although it gives up the mutex before it calls the
-- server: a Disconnect in the midst of it is not among the steps. What `ua.MustVariant` makes of a
-- slice of `interface{}` is a parameter, since gopcua is not part of the repository.
pub mod Common
pub mod Config
pub mod Severity
pub mod Value
pub mod Ua
pub mod LogRecord
pub mod Client
pub mod Tests
pub mod Mock
pub mod Pipeline
pub mod Pdata
pub mod Receiver
pub mod Records
pub mod Scraper
pub mod Transformer
