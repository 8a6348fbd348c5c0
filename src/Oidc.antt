-- ===== src/Oidc.antt =====
-- crates/oidc: identity. Principals and gates, the expiring stores, the retry budget, the browser
-- flow and the middleware.
pub mod Principal
pub mod Predicate
pub mod Store
pub mod Bearer
pub mod Retry
pub mod Idp
pub mod Client
pub mod PageConfig
pub mod Session
pub mod Web
pub mod Auth
mod Tests
