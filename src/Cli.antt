-- ===== src/Cli.antt =====
-- backend/app/services/cli: session.py, and of parsing.py the abbreviations and the lists of VLANs.
mod Vlans
mod Abbreviations
mod Session
unfoldable pub use Vlans.*
unfoldable pub use Abbreviations.*
unfoldable pub use Session.*
pub mod VlanSets
pub mod VlanList
pub mod Resolved
pub mod Leaving
mod Examples
