-- ===== src/Sessions.antt =====
-- src/lib.rs, `Session`: the preamble and the priorities of a stream that is opened, the calls that
-- open streams, `set_shaper`, and its events.
pub mod Preamble
pub mod Opening
pub mod Shapers
pub mod Events
mod Tests
