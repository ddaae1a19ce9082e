-- ===== src/Retrieval.antt =====
-- The retrieval of a round: `execute_search_tool` and the lanes of runtime/retrieval_runtime.py.
pub mod Fetches
pub mod Search
pub mod Lanes
