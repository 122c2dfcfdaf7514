-- ===== src/Bridge.antt =====
-- pkg/docker-proxy/mutagen-bridge: the managers that keep, for each container, the port forwards
-- and the file synchronizations to set up, and take them down again.
pub mod Sessions
pub mod Creation
pub mod Store
pub mod PortForward
pub mod FileSync
mod Tests
