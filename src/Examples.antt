-- ===== src/Examples.antt =====
-- Concrete inputs for the theorems, and runs of the model on them.
mod Data
mod Builder
mod Reflection
mod Runs
mod Access
mod Names
mod Schemas
mod Queries
mod Views
mod Writes
mod Transactions
mod Seeds
mod Migrations
mod Relations
mod Locking
mod Raw
mod Analysis
mod Failures
