-- ===== src/Core.antt =====
-- packages/core: the shared data, and the values of the host language that it carries.
mod Values
mod Schema
mod Instance
mod Host
mod Results
unfoldable pub use Values.*
unfoldable pub use Schema.*
pub use Instance.*
pub use Host.*
pub use Results.*
