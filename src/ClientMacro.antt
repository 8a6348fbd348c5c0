-- ===== src/ClientMacro.antt =====
-- crates/routing-macros: the attribute `#[client]`, from what is written on a handler to the test that
-- describes the handler for the generator.
pub mod Template
pub mod Signature
pub mod Expand
pub mod Termination
pub mod Declared
pub mod Declares
pub mod Typed
pub mod Links
pub mod Described
mod Tests
