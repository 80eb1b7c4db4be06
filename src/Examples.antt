-- ===== src/Examples.antt =====
-- The theorems at concrete inputs, and tests.
pub mod Drive
pub mod Cart
pub mod Input
mod Pads
pub mod Bus
pub mod Steady
pub mod Settings
pub mod Loader
pub mod Serial
pub mod Cache
pub mod Diagnostics
pub mod Walk
