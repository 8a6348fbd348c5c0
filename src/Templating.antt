-- ===== src/Templating.antt =====
-- crates/templating: the asset origin, the stamping of a shell, and the cache of static files.
pub mod Origin
pub mod Shell
pub mod Cache
mod Tests
