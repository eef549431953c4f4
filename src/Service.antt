-- ===== src/Service.antt =====
-- The services of service/.
pub mod Index
pub mod App
pub mod Config
pub mod Node
pub mod Listing
pub mod NodeOps
pub mod Quota
pub mod Sync
pub mod System
