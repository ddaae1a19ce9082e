-- ===== src/Liepin/Ledger.antt =====
-- The ledger of detail attempts of src/seektalent/providers/liepin/store.py: one row for each
-- reservation of a resume detail, its life cycle, the worker responses that drive it, and the
-- count of the daily budget.
pub mod States
pub mod Tables
pub mod Operations
