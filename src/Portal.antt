-- ===== src/Portal.antt =====
-- dashboard/captive_portal_server.py, dashboard/block_page_server.py and common/auth.py: how a device
-- gets online, and what it is told where it may not go.
pub mod Password
pub mod Login
pub mod Admin
pub mod SignedIn
pub mod Grouped
pub mod Verified
pub mod Granted
pub mod BlockPage
pub mod Blocked
