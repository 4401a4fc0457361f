-- ===== src/Examples.antt =====
-- Concrete runs: a database, a world and a server that nothing disturbs, and the theorems on them.
pub mod Data
pub mod Tasks
pub mod Reports
pub mod Accepted
pub mod Agents
pub mod Settings
pub mod Submissions
pub mod Clusters
