-- ===== src/Access.antt =====
-- access/: policies, the policy engine and soft deletion.
pub mod Policy
pub mod Engine
