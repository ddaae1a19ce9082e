-- ===== src/Liepin.antt =====
-- The parts of the Liepin provider that decide: src/seektalent/providers/liepin, and the locks of
-- src/seektalent/providers/pi_agent.
pub mod Ledger
pub mod Gate
pub mod Locks
pub mod DetailPlan
