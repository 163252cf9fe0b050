-- ===== src/Config.antt =====
-- backend/app/schemas/device_config.py: what can be configured on a device, and the administrative
-- state of an interface, and the helpers on masks. Other limits on single fields are not modelled.
mod Interfaces
mod Routing
mod Services
mod Device
mod Masks
pub use Interfaces.*
pub use Routing.*
pub use Services.*
pub use Device.*
unfoldable pub use Interfaces.{admin_up}
unfoldable pub use Masks.*
pub mod RoundTrip
pub mod Contiguous
mod Examples
