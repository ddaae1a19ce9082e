-- ===== src/Lib.antt =====
-- Verification library of SeekTalent, a program that searches for candidates in rounds: a query is
-- planned from a pool of terms, sent to a provider for several cities, and the run stops or is
-- rescued by what the round found.
--
-- Parts, and the files that model them:
--
-- + Text (src/seektalent/models.py `unique_strings`, src/seektalent/retrieval/query_plan.py
--   `normalize_term`): a Python text is the list of its code points. Case folding is a table of the
--   platform and a parameter, `Unicode`, of every definition that uses it.
-- + QueryPlan (src/seektalent/retrieval/query_plan.py). Terms: the term pool, its keys and orders.
--   Canonical: `canonicalize_controller_query_terms`, whose `ValueError`s are `PlanError`s.
--   Selection: `select_query_terms`, `serialize_keyword_query` and `build_round_retrieval_plan`.
--   Locations: `build_location_execution_plan`, `rotate_locations` and
--   `allocate_balanced_city_targets`.
-- + Rescue. Guidance (src/seektalent/runtime/controller_context.py): `_build_stop_guidance` and the
--   budget of `build_controller_context`. Router (src/seektalent/runtime/rescue_router.py):
--   `choose_rescue_lane`, which reads the guidance. Broaden
--   (src/seektalent/runtime/rescue_execution_runtime.py): `force_broaden_decision` and
--   `force_anchor_only_decision`.
-- + Retrieval (src/seektalent/runtime/retrieval_runtime.py). Fetches: one fetch, with the provider as
--   a parameter that threads a state of its own. Search: `execute_search_tool`, a loop over
--   fetches, and in Dispatch `_run_city_dispatch`, which calls it. Lanes:
--   `allocate_initial_lane_targets`, `allow_lane_refill` and `classify_query_outcome` (src/seektalent/runtime/runtime_diagnostics.py).
-- + Liepin.Ledger (src/seektalent/providers/liepin/store.py): the attempts to open details and their
--   budget. The SQL tables are lists of rows with their unique keys; the operations are
--   `reserve_detail_attempt`, `transition_detail_attempt`, `apply_detail_worker_response` and
--   `count_detail_budget_consumed`; a history is a sequence of them.
-- + Liepin.Gate (src/seektalent/providers/liepin/compliance.py): `ComplianceGate`. Liepin.Locks
--   (src/seektalent/providers/pi_agent/locks.py): `InMemoryPiConnectionLock`. Liepin.DetailPlan
--   (src/seektalent/providers/liepin/policy.py): `build_detail_open_plan` and
--   `validate_detail_open_grant`.
-- + Feedback.Policy (src/seektalent/candidate_feedback/policy.py): `build_prf_policy_decision`, the
--   gate on the terms that good resumes suggest.
-- + Workbench (src/seektalent_ui/workbench_store.py): the store of the web interface. Tables: its
--   rows and the transaction of a method. Events: `_append_workbench_event_conn`. Sessions: a
--   session with its runs and its triage. Jobs: the queue of source-run jobs, with a module for
--   `start_source_run_job`, `claim_next_source_run_job`, `reconcile_expired_running_jobs` and the
--   methods that end a job. Connections: the login of Liepin. Life: the life cycle of a source run
--   as an edge relation on phases, which the operations refine. Details: the requests to open
--   details, with their leases and the budget of a day, and in Cards the end of a Liepin card
--   search, `complete_liepin_card_source_run_with_lane_result`, which makes requests by itself.
-- + Access: accounts and logins of the web interface. Sessions, Logins and Setup (the same store):
--   `create_user_session`, `get_user_by_session`, `verify_session_csrf`, `record_login_attempt`,
--   `is_login_locked` and their like. Guards: the guards of src/seektalent_ui/auth.py and the
--   /api/auth routes of src/seektalent_ui/workbench_routes.py, as one server that handles its
--   requests one at a time. Quiet and Retired: what the requests keep of the sessions.
-- + Common: library names, lists, results and sorting that the parts share.
--
-- How they interact: a round plan (QueryPlan) gives the cities and the query that Retrieval sends;
-- the counts of the rounds and the sent queries are what Rescue reads. The parts of Liepin
-- are separate: a search passes the gate and holds the locks, a plan chooses the details to open,
-- and the ledger records them. In the workbench a job carries a source run out: the triage of its
-- session releases it, a login may block or release it, and a runner claims it under a lease.
--
-- Bounds and fuel: numbers are natural numbers, and a target below 0 is 0. The paging loop runs on
-- as much fuel as attempts are allowed and one more: each iteration counts an attempt, and the
-- first test of the loop stops at the limit. `ceil(n * 0.7)` and `ceil(n * 0.8)` are written as
-- integer quotients, which agree with the floating-point results for the sizes in use. Rates are
-- a parameter, `Floats`; the hash functions and the lower case of a login are one, `Platform`. A
-- provider that returns nothing stands for an exception, of the call or of the check of its
-- snapshots.
--
-- Not modelled: prompts and language model calls, the command line and the interfaces, artifact
-- and corpus stores, the worker processes of Liepin, tracing, texts of messages, and the fields
-- that the modelled functions only pass on.
pub mod Access
pub mod Common
pub mod Feedback
pub mod Liepin
pub mod QueryPlan
pub mod Rescue
pub mod Retrieval
pub mod Text
pub mod Workbench
