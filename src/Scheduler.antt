-- ===== src/Scheduler.antt =====
-- The scheduler of recurring discovery and reporting runs (backend/app/scheduler).
pub mod Service
