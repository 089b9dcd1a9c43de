-- ===== src/Handlers.antt =====
-- The request handlers that a location may name.
pub mod Echo
pub mod Health
pub mod Static
pub mod Lengths
pub mod Serving
pub mod Proxy
pub mod Status
mod Tests
