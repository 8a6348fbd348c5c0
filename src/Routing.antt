-- ===== src/Routing.antt =====
-- crates/routing: routers that record what is mounted on them, embedded assets, and the client that
-- is generated from the recorded routes and the described handlers.
pub mod Manifest
pub mod Assets
pub mod Router
pub mod Export
pub mod Arg
pub mod Barrel
pub mod Generate
pub mod Render
mod Tests
