-- ===== src/Agent/Images.antt =====
-- The image cache (images.go): where an image's files are, how it is fetched, and a container's root
-- file system.
mod Cache
mod Pull
mod Rootfs
mod Listing
pub mod Tags
unfoldable pub use Cache.*
unfoldable pub use Pull.*
unfoldable pub use Rootfs.*
unfoldable pub use Listing.*
