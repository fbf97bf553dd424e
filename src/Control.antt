-- ===== src/Control.antt =====
-- src/control-plane.js: accounts, projects and their entitlements over a database.
pub mod Plans
pub mod Texts
pub mod Records
pub mod Steps
pub mod Transact
pub mod Accounts
pub mod Projects
pub mod Entitled
pub mod Billing
mod Examples
