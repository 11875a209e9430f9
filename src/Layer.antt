-- ===== src/Layer.antt =====
-- src/layer.rs: layers over carriers.
pub mod Channel
pub mod Chan
pub mod Stream
pub mod Transform
mod Tests
