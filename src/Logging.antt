-- ===== src/Logging.antt =====
-- crates/logging: what an event is about, and which events reach the output.
pub mod Designator
pub mod Filter
pub mod Config
pub mod Fields
pub mod Format
pub mod Boot
pub mod Span
mod Tests
