-- ===== src/Retrieval/Search/Tests.antt =====
-- A provider with two full pages and an empty third, whose state counts the calls.
use cv_match.Retrieval.Search.{
  Settings, Request, SearchOutcome, execute_search_tool, search_loop, ExhaustedReason,
  cts_exhausted, searched, no_outcome, search_failed,
}
use cv_match.Retrieval.Fetches.{Provider, Candidate, FetchResult, scan_candidates}
use cv_match.Common.{
  ℕ, suc, zero, some, [], Option, false, ◌∷◌, List, ◌≡◌, none, arith, refl, length, ap,
}
use cv_match.Retrieval.Search.Ends.{SearchesWell, execute-SearchesWell}
use cv_match.Retrieval.Search.Dispatch.{
  CityExecutionState, GoesOnWhereItStopped, run_city_dispatch, run-goes_on,
}
use cv_match.Retrieval.Search.Bounds.{KeepsToSize, IsBounded, execute-IsBounded}

abbrev candidate_a : Candidate
candidate_a = record { resume_id = "r1"; dedup_key = "k1" }

abbrev candidate_b : Candidate
candidate_b = record { resume_id = "r2"; dedup_key = "k2" }

abbrev candidate_c : Candidate
candidate_c = record { resume_id = "r3"; dedup_key = "k1" }

abbrev page_of : ℕ → FetchResult
page_of zero = record { candidates = []; raw_candidate_count = 0 }
page_of (suc zero) = record { candidates = candidate_a ∷ candidate_b ∷ []; raw_candidate_count = 2 }
page_of (suc (suc zero)) = record { candidates = candidate_c ∷ []; raw_candidate_count = 1 }
page_of (suc (suc (suc n))) = record { candidates = []; raw_candidate_count = 0 }

abbrev two_pages : Provider ℕ
two_pages calls page page_size = some (page_of page, suc calls)

abbrev limits : Settings
limits = record {
  search_max_attempts_per_round = 3;
  search_max_pages_per_round = 3;
  search_no_progress_limit = 2;
}

abbrev wanted : Request
wanted = record { page = 1; target_new = 5; seen_resume_ids = []; seen_dedup_keys = "k2" ∷ [] }

abbrev calls_of : SearchOutcome ℕ → Option (ℕ × ExhaustedReason × List Candidate)
calls_of no_outcome = none
calls_of search_failed = none
calls_of (searched found seen attempts duplicates hits calls) =
    some (calls, seen.exhausted_reason, found)

-- The third page is empty: three calls, and one candidate.
three_calls :
    calls_of (execute_search_tool two_pages limits wanted 0)
    ≡ some (3, cts_exhausted, candidate_a ∷ [])
unfolding execute_search_tool search_loop scan_candidates
three_calls = refl

execute-SearchesWell_example :
    SearchesWell limits wanted (execute_search_tool two_pages limits wanted 0)
execute-SearchesWell_example = execute-SearchesWell two_pages limits wanted 0

abbrev fresh_city : CityExecutionState
fresh_city = record { next_page = 1; exhausted = false }

run-goes_on_example :
    GoesOnWhereItStopped fresh_city 5
      (run_city_dispatch two_pages limits fresh_city 5 [] ("k2" ∷ []) 0)
run-goes_on_example = run-goes_on two_pages limits fresh_city 5 [] ("k2" ∷ []) 0 (omega arith)

-- A provider that returns one candidate with each page, if it is asked for any
abbrev one_each : Provider ℕ
one_each calls page zero = some (page_of zero, suc calls)
one_each calls page (suc n) =
    some (record { candidates = candidate_a ∷ []; raw_candidate_count = 1 }, suc calls)

abbrev returned_count : Option (FetchResult × ℕ) → ℕ
returned_count none = 0
returned_count (some (fetched, calls)) = length fetched.candidates

one_each-KeepsToSize : KeepsToSize one_each
one_each-KeepsToSize calls page zero fetched calls' e = omega (arith, ap returned_count e)
one_each-KeepsToSize calls page (suc n) fetched calls' e = omega (arith, ap returned_count e)

execute-IsBounded_example : IsBounded wanted (execute_search_tool one_each limits wanted 0)
execute-IsBounded_example = execute-IsBounded one_each limits wanted 0 one_each-KeepsToSize
