-- ===== src/Lab.antt =====
-- The labs: rules, and the grader that checks them on the simulated network.
mod Rules
mod Find
mod Traffic
mod Settings
mod Tables
mod Grade
mod Faults
mod Inject
unfoldable pub use Rules.*
unfoldable pub use Find.*
unfoldable pub use Traffic.*
unfoldable pub use Settings.*
unfoldable pub use Tables.*
unfoldable pub use Grade.*
unfoldable pub use Faults.*
unfoldable pub use Inject.*
pub mod Demands
pub mod Judged
pub mod Sound
pub mod Configured
pub mod Handled
pub mod Score
pub mod Graded
pub mod Unbroken
pub mod OnlyThere
mod Examples
mod FaultExamples
