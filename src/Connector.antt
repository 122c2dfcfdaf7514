-- ===== src/Connector.antt =====
-- pkg/connector: the mTLS proxy that authenticates a client, authorises it, and routes its
-- connection to a backend host.
pub mod Config
pub mod Identity
pub mod Sni
pub mod Database
pub mod Authorization
pub mod Router
pub mod Proxy
mod Tests
