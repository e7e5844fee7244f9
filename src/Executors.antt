-- ===== src/Executors.antt =====
-- src/core/async_executor.{h,cpp}: the executors.
mod Tests
pub mod Strand
pub mod Order
pub mod Pool
pub mod Idle
