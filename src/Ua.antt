-- ===== src/Ua.antt =====
-- The parts of github.com/gopcua/opcua that the receiver relies on, as interfaces with the laws
-- that its documentation states, and one concrete library that has them.
pub mod NodeIds
pub mod Buffers
pub mod Concrete
