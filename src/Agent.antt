-- ===== src/Agent.antt =====
-- cmd/aetheria-agent: the program that runs inside the guest machine.
pub mod Types
pub mod Os
pub mod Network
pub mod Cgroup
pub mod Output
pub mod PortForward
pub mod Container
pub mod Lifecycle
pub mod Oci
pub mod Rpc
pub mod Connection
pub mod Shell
pub mod Init
pub mod Services
pub mod Images
