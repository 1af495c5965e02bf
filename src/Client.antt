-- ===== src/Client.antt =====
-- receiver/opcua/client.go: paging through `GetRecords`.
pub mod Paging
pub mod Endpoints
pub mod Discovery
pub mod Calls
