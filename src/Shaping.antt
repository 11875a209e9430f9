-- ===== src/Shaping.antt =====
-- src/shaping.rs: the seeded random source of `set_shaper`, and the factory that picks a shaping
-- definition by carrier kind.
pub mod SplitMix
pub mod ByKind
pub mod Limits
mod Tests
