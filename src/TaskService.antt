-- ===== src/TaskService.antt =====
-- internal/service/task_service.
pub mod Hook
pub mod Recompute
pub mod Lease
pub mod Submit
pub mod Poll
pub mod Report
pub mod Rollback
pub mod Validate
pub mod Cancel
pub mod Queries
pub mod Kept
