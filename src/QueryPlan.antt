-- ===== src/QueryPlan.antt =====
-- src/seektalent/retrieval/query_plan.py: the terms of a round's query, and its locations.
pub mod Terms
pub mod Canonical
pub mod Selection
pub mod Locations
