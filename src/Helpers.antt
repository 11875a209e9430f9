-- ===== src/Helpers.antt =====
-- src/helpers.rs: splicing with Python limiters, the resolution of duplicate sessions, and the names
-- of the crate's variants as Python spells them.
pub mod Limiter
pub mod Splice
pub mod Snake
pub mod Answers
mod Tests
