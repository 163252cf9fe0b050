-- ===== src/Devices.antt =====
-- backend/app/models/enums.py (devices, cables, ports) and backend/app/services/device_catalog.py.
-- The labels of the catalogue that only the editor's palette shows are not modelled.
mod Kinds
mod Catalog
mod Cables
pub use Kinds.*
unfoldable pub use Catalog.*
unfoldable pub use Cables.*
pub mod Laws
