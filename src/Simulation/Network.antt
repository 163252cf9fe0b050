-- ===== src/Simulation/Network.antt =====
-- backend/app/services/simulation/network.py: a topology resolved into what forwarding runs over.
mod Types
mod Queries
mod Build
mod Flood
mod Peers
mod Routing
mod Blocked
unfoldable pub use Types.*
unfoldable pub use Queries.*
unfoldable pub use Build.*
unfoldable pub use Flood.*
unfoldable pub use Peers.*
unfoldable pub use Routing.*
unfoldable pub use Blocked.*
pub mod Cabling
pub mod FloodEnds
pub mod Broadcast
pub mod FloodExact
pub mod PeersEnd
pub mod BestRoute
pub mod CableAdvice
pub mod Subnets
pub mod Untagged
pub mod BlockedEnds
pub mod RoutesEnd
pub mod Examples
