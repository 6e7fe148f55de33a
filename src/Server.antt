-- ===== src/Server.antt =====
-- The package internal/server: the SSH server in front of the workspaces.
pub mod Validate
pub mod Lease
pub mod Connect
pub mod Wire
pub mod Session
pub mod Draining
pub mod Effects
pub mod Run
pub mod Relay
pub mod Exit
pub mod Direct
pub mod Channel
pub mod Listen
pub mod Connection
pub mod Serving
pub mod Execute
pub mod HostKey
pub mod Proxy
pub mod Once
pub mod Proxying
pub mod Examples
