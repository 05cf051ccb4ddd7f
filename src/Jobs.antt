-- ===== src/Jobs.antt =====
-- The in-process job framework: backend/app/jobs.
pub mod State
pub mod Dispatcher
