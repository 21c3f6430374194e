-- ===== src/Adguard.antt =====
-- controller/adguard_sync.py and common/optigate_rewrite.py: the rules that AdGuard Home is given.
pub mod Rule
pub mod RoundTrip
pub mod Merge
pub mod Groups
pub mod Merging
pub mod Merged
pub mod Devices
pub mod Scoped
pub mod Deny
pub mod Categories
pub mod Client
pub mod Block
pub mod Rewrites
pub mod Managed
pub mod Sync
pub mod Readings
pub mod ScopedRules
pub mod Denied
pub mod Allowed
pub mod Applicable
pub mod Blocked
pub mod Answered
pub mod Gated
pub mod Safety
pub mod Baseline
pub mod Strip
pub mod Keeps
pub mod Settled
pub mod Cycle
pub mod Reconciled
pub mod Named
