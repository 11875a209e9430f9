-- ===== src/Rt.antt =====
-- src/rt.rs: the binding's runtime and its bridges to asyncio.
pub mod Gate
pub mod Awaited
pub mod Completion
mod Tests
mod BridgeTests
