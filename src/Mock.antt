-- ===== src/Mock.antt =====
-- The test server, the test client and the test records of receiver/opcua/testdata.
pub mod Server
pub mod Handler
pub mod Client
pub mod Generator
