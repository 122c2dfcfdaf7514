-- ===== src/Guest.antt =====
-- pkg/guest: the agent on the container host, which runs commands and makes directories.
pub mod Paths
pub mod Command
pub mod Directories
pub mod Access
mod Tests
