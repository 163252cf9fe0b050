-- ===== src/Simulation/Forwarding.antt =====
-- backend/app/services/simulation/forwarding.py: one packet, hop by hop, with its trace.
mod Run
mod Arp
mod Egress
mod Deliver
unfoldable pub use Run.*
unfoldable pub use Arp.*
unfoldable pub use Egress.*
unfoldable pub use Deliver.*
pub mod Safe
pub mod Returned
pub mod Fresh
pub mod Details
pub mod Steps
pub mod ArpSound
pub mod Walk
pub mod Delivery
pub mod Promises
pub mod Examples
