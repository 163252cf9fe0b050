-- ===== src/Simulation/Trace.antt =====
-- backend/app/services/simulation/trace.py: the events of a run, numbered from 1.
mod Builder
pub use Builder.*
unfoldable pub use Builder.{add, fail}
pub mod Numbered
