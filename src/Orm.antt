-- ===== src/Orm.antt =====
-- orm/: sessions, query options and the statements that the ORM builds.
pub mod Query
pub mod Write
pub mod Session
pub mod Exec
pub mod Transaction
pub mod Batch
pub mod Relations
pub mod Raw
pub mod DryRun
