-- ===== src/Workbench.antt =====
-- The store of the workbench, src/seektalent_ui/workbench_store.py: the source runs of a session,
-- the jobs that carry them out, the Liepin connection that a run may need, the triage that
-- releases a session, and the log of its events.
--
-- A table is the list of its rows. Identifiers are compared and ordered only, so they are numbers,
-- and a time, which the store writes in whole seconds, is a number too. The tenant column, which
-- every statement fills with one constant, and the columns that hold texts of messages, health,
-- and event payloads are left out. A connection is always Liepin's, as its CHECK says.
pub mod Tables
pub mod Events
pub mod Sessions
pub mod Jobs
pub mod Connections
pub mod Life
pub mod Details
pub mod Reconciled
pub mod Claimed
mod Tests
