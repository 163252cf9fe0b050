-- ===== src/Topology.antt =====
-- backend/app/schemas/topology.py: the topology document and the validation of its structure.
-- Positions, labels and the viewport are not modelled: only the canvas reads them.
mod Document
mod Structure
pub use Document.*
unfoldable pub use Structure.*
pub mod Wiring
pub mod Validated
pub mod SelfJoin
pub mod Skeleton
pub mod Examples
