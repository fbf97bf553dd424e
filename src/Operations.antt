-- ===== src/Operations.antt =====
-- src/operations.js: the offline queue, tokens, entitlement gates, metrics and backups.
pub mod Queue
pub mod Tokens
pub mod Metrics
pub mod Backup
mod Examples
