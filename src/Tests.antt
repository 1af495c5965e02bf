-- ===== src/Tests.antt =====
-- Concrete runs of the receiver's code, and the theorems at concrete inputs.
mod ConfigTests
pub mod WireTests
mod PagingTests
mod MockTests
pub mod RecordTests
pub mod ClientTests
pub mod CallTests
mod PipelineTests
pub mod ReceiverTests
