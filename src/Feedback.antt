-- ===== src/Feedback.antt =====
-- The candidate feedback, which proposes terms from good resumes:
-- src/seektalent/candidate_feedback.
pub mod Policy
