-- ===== src/TaskService/Kept.antt =====
-- The operations of task_service under the relation of Action/Evolves.
pub mod Leasing
pub mod Reporting
pub mod Undoing
pub mod Submitting
