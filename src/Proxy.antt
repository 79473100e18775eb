-- ===== src/Proxy.antt =====
-- proxy/proxy.go: the handlers that pass requests on to functions. Log lines are left out.
pub mod Request
pub mod Forward
pub mod Setup
pub mod Flow
pub mod Cache
pub mod Client
mod Sample
mod Tests
