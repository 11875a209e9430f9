-- ===== src/Handles.antt =====
-- src/lib.rs and src/helpers.rs: Python's handles on what a call uses up.
pub mod PipeIo
pub mod Parts
mod Tests
