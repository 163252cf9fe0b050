-- ===== src/Simulation/Network/FloodExact.antt =====
-- A flood with a known VLAN reaches exactly the live ports that let the frame in and where it
-- arrives, each once.
mod Rounds
mod Result
pub use Rounds.{Distinct}
pub use Result.*
