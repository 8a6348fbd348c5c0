-- ===== src/Config.antt =====
-- crates/config: the load pipeline, schema → args → merge → typed parse.
pub mod Path
pub mod Refusal
pub mod Schema
pub mod Args
pub mod File
pub mod Values
pub mod Layers
pub mod Class
pub mod Help
pub mod Load
pub mod Derive
mod Tests
