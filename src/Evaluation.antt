-- ===== src/Evaluation.antt =====
-- Compliance evaluation of comparison differences (backend/app/evaluation).
pub mod Scoring
pub mod Engine
