-- ===== src/Document.antt =====
-- src/document.js: documents, their queries, projections, updates and aggregation.
pub mod Runtime
pub mod Path
pub mod Match
pub mod Update
pub mod Project
pub mod Aggregate
mod Examples
