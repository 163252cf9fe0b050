-- ===== src/Simulation/Network/BestRoute.antt =====
-- `lookup_route` is a longest-prefix match, and the routing cache never changes an answer.
mod Order
mod Cache
mod Choice
pub use Order.*
pub use Choice.*
pub use Cache.*
