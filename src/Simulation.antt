-- ===== src/Simulation.antt =====
-- backend/app/services/simulation: the trace, the network and the forwarder.
pub mod Trace
pub mod Network
pub mod Forwarding
pub mod Samples
pub mod Examples
pub mod Protocols
