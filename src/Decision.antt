-- ===== src/Decision.antt =====
-- Decisions derived from evaluation results (backend/app/decision).
pub mod Engine
