-- ===== src/Agent/Container.antt =====
-- cmd/aetheria-agent/container.go: the container manager.
mod State
mod Create
mod Start
mod Stop
mod Query
mod Persist
pub mod Names
pub mod Again
unfoldable pub use State.*
unfoldable pub use Create.*
unfoldable pub use Start.*
unfoldable pub use Stop.*
unfoldable pub use Query.*
unfoldable pub use Persist.*
