-- ===== src/Simulation/Protocols.antt =====
-- backend/app/services/simulation/protocols.py: the exchanges of a `Simulator` over the forwarder.
mod Report
mod Resolve
mod Icmp
mod Dhcp
mod Dns
mod Transport
unfoldable pub use Report.*
unfoldable pub use Resolve.*
unfoldable pub use Icmp.*
unfoldable pub use Dhcp.*
unfoldable pub use Dns.*
unfoldable pub use Transport.*
mod Simulate
unfoldable pub use Simulate.*
pub mod Reported
pub mod Reaches
pub mod Exchanges
pub mod Streams
pub mod Served
pub mod Leases
pub mod Offer
pub mod Outcomes
pub mod Endpoint
pub mod HostVlan
pub mod Examples
pub mod Runs
