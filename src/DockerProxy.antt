-- ===== src/DockerProxy.antt =====
-- pkg/docker-proxy: the proxy between Docker's clients and the remote daemon.
pub mod Messages
pub mod Remote
pub mod Create
pub mod Operations
pub mod Sync
pub mod Setup
pub mod Connection
pub mod Directories
pub mod Lifecycle
pub mod Removal
pub mod Rewriting
mod Tests
