-- ===== src/Skills.antt =====
-- The skills: what a submission must hold, and the review that it goes through.
pub mod Validation
pub mod Review
