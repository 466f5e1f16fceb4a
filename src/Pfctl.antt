-- ===== src/Pfctl.antt =====
-- `PfCtl` (src/lib.rs), which holds the file descriptor of /dev/pf.
mod Status
mod Anchors
mod Rules
mod States
mod Interfaces
pub mod Enabling
pub mod Finding
pub mod Listing
pub mod Ending
pub mod Counting
pub mod Killing
pub mod Flushing
pub mod Removing
pub mod Clearing
pub mod AnchorLists
pub mod Anchoring
pub mod AnchorSets
pub mod Appending
unfoldable pub use Status.*
unfoldable pub use Anchors.*
unfoldable pub use Rules.*
unfoldable pub use States.*
unfoldable pub use Interfaces.*
