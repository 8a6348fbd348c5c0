-- ===== src/Config/Derive.antt =====
-- crates/config-derive: the derive, and what its output does in the pipeline.
pub mod Attrs
pub mod Rules
pub mod Expand
pub mod Meaning
pub mod Checked
pub mod Closed
mod Tests
