-- ===== src/Host.antt =====
-- cmd/aetheria: the command line and the daemon, on the host.
pub mod Values
pub mod Options
pub mod Daemon
pub mod Commands
pub mod Streams
pub mod Relay
pub mod Client
pub mod Usage
pub mod Main
pub mod Run
