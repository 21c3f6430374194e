-- ===== src/Identity.antt =====
-- common/identity.py and common/device_identity.py: which device holds which address.
pub mod Events
pub mod Bindings
pub mod Released
pub mod Observed
pub mod Unique
pub mod Resolve
pub mod Healing
pub mod Resolved
pub mod Stable
pub mod Stuck
