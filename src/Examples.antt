-- ===== src/Examples.antt =====
-- Runs of the model at concrete inputs.
mod Machine
mod Containers
mod Networks
mod References
mod CommandLine
mod Requests
mod Restarts
mod Registries
mod Connections
mod Shells
mod Streams
mod Volumes
mod Relays
mod Bridges
mod Endings
mod Clients
mod Terminals
mod Removals
mod Echo
mod Names
mod Commands
mod Layers
