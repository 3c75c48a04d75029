-- ===== src/Schema.antt =====
-- schema/: the in-memory schema, its comparison and its names.
pub mod Types
pub mod Names
pub mod Keys
pub mod Tags
pub mod GoTypes
pub mod CustomTypes
pub mod Columns
pub mod Cache
pub mod Builder
pub mod Traits
pub mod Diff
pub mod Drift
pub mod Validate
pub mod Snapshot
