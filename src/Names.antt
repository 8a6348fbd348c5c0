-- ===== src/Names.antt =====
-- crates/names: keeping stored names fresh against a feed of renames.
pub mod Deltas
pub mod Apply
pub mod Sync
pub mod Feed
pub mod Derive
mod Tests
