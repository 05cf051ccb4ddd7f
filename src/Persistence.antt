-- ===== src/Persistence.antt =====
-- Durable state: backend/app/persistence.
pub mod Tables
pub mod Jobs
pub mod Steps
pub mod Trees
pub mod Histories
pub mod Samples
pub mod Evidence
