-- ===== src/Retrieval/Search.antt =====
-- `execute_search_tool` of runtime/retrieval_runtime.py: pages are fetched until enough candidates
-- are found or a limit is met. The adapter notes, the latency and the trace are left
-- out.
mod Pages
mod Ends
mod Bounds
mod Dispatch
mod Tests
use cv_match.Retrieval.Fetches.{Candidate, FetchResult, Provider, ResumeHit, Batch, scan_candidates}
use cv_match.Common.{
  ℕ, zero, max, ◌-◌, ◌+◌, str_eq, String, if◌then◌else◌, List, Option, Bool, suc, ◌∷◌, ◌++◌, [],
  length, any, not, leb, true, some, map, ◌&&◌, ltb, ◌==◌, false, is_some, none,
}

pub record Settings : Type 0 where
  pub search_max_attempts_per_round : ℕ
  pub search_max_pages_per_round : ℕ
  pub search_no_progress_limit : ℕ

pub record Request : Type 0 where
  pub page : ℕ
  pub target_new : ℕ
  pub seen_resume_ids : List String
  pub seen_dedup_keys : List String

pub data ExhaustedReason : Type 0 where
  target_satisfied cts_exhausted no_progress_repeated_results : ExhaustedReason
  max_attempts_reached max_pages_reached : ExhaustedReason

pub record SearchAttempt : Type 0 where
  pub attempt_no : ℕ
  pub requested_page : ℕ
  pub requested_page_size : ℕ
  pub raw_candidate_count : ℕ
  pub batch_duplicate_count : ℕ
  pub batch_unique_new_count : ℕ
  pub cumulative_unique_new_count : ℕ
  pub consecutive_zero_gain_attempts : ℕ
  pub continue_refill : Bool
  pub exhausted_reason : Option ExhaustedReason

pub record SearchObservation : Type 0 where
  pub requested_count : ℕ
  pub raw_candidate_count : ℕ
  pub unique_new_count : ℕ
  pub shortage_count : ℕ
  pub fetch_attempt_count : ℕ
  pub exhausted_reason : ExhaustedReason
  pub new_resume_ids : List String

-- the variables of the loop
pub record Progress : Type 0 where
  pub page : ℕ
  pub attempt_no : ℕ
  pub all_new_candidates : List Candidate
  pub local_seen_keys : List String
  pub raw_candidate_count : ℕ
  pub duplicate_count : ℕ
  pub consecutive_zero_gain_attempts : ℕ
  pub hits : List ResumeHit
  pub attempts : List SearchAttempt

-- the tests at the head of the loop
abbrev pub guard : Settings → Request → Progress → Option ExhaustedReason
guard settings request s =
    if leb settings.search_max_attempts_per_round s.attempt_no
    then some max_attempts_reached
    else if ltb settings.search_max_pages_per_round s.page
    then some max_pages_reached
    else if leb request.target_new (length s.all_new_candidates)
    then some target_satisfied
    else none

-- the tests at its end, where the attempt is counted but the page is not yet turned
abbrev pub refill_end : Settings → Request → ℕ → Progress → Option ExhaustedReason
refill_end settings request fetched s =
    if leb request.target_new (length s.all_new_candidates)
    then some target_satisfied
    else if fetched == 0
    then some cts_exhausted
    else if leb settings.search_no_progress_limit s.consecutive_zero_gain_attempts
    then some no_progress_repeated_results
    else if leb settings.search_max_attempts_per_round s.attempt_no
    then some max_attempts_reached
    else if leb settings.search_max_pages_per_round s.page
    then some max_pages_reached
    else none

abbrev pub is_empty_batch : List Candidate → Bool
is_empty_batch [] = true
is_empty_batch (c ∷ cs) = false

-- The candidates of a fetch are taken in.
abbrev pub absorb : Progress → FetchResult → Batch → Progress
absorb s fetched b = record {
  page = s.page;
  attempt_no = suc s.attempt_no;
  all_new_candidates = s.all_new_candidates ++ b.fresh;
  local_seen_keys = b.keys;
  raw_candidate_count = s.raw_candidate_count + fetched.raw_candidate_count;
  duplicate_count = s.duplicate_count + b.duplicates;
  consecutive_zero_gain_attempts =
      if is_empty_batch b.fresh then suc s.consecutive_zero_gain_attempts else 0;
  hits = s.hits ++ b.hits;
  attempts = s.attempts;
}

abbrev pub attempt_of : ℕ → FetchResult → Batch → Option ExhaustedReason → Progress → SearchAttempt
attempt_of page_size fetched b end s = record {
  attempt_no = s.attempt_no;
  requested_page = s.page;
  requested_page_size = page_size;
  raw_candidate_count = fetched.raw_candidate_count;
  batch_duplicate_count = b.duplicates;
  batch_unique_new_count = length b.fresh;
  cumulative_unique_new_count = length s.all_new_candidates;
  consecutive_zero_gain_attempts = s.consecutive_zero_gain_attempts;
  continue_refill = not (is_some end);
  exhausted_reason = end;
}

abbrev pub add_attempt : SearchAttempt → Progress → Progress
add_attempt attempt s = record {
  page = s.page;
  attempt_no = s.attempt_no;
  all_new_candidates = s.all_new_candidates;
  local_seen_keys = s.local_seen_keys;
  raw_candidate_count = s.raw_candidate_count;
  duplicate_count = s.duplicate_count;
  consecutive_zero_gain_attempts = s.consecutive_zero_gain_attempts;
  hits = s.hits;
  attempts = s.attempts ++ attempt ∷ [];
}

abbrev pub turn_page : Progress → Progress
turn_page s = record {
  page = suc s.page;
  attempt_no = s.attempt_no;
  all_new_candidates = s.all_new_candidates;
  local_seen_keys = s.local_seen_keys;
  raw_candidate_count = s.raw_candidate_count;
  duplicate_count = s.duplicate_count;
  consecutive_zero_gain_attempts = s.consecutive_zero_gain_attempts;
  hits = s.hits;
  attempts = s.attempts;
}

abbrev pub batch_of : Request → Progress → FetchResult → Batch
batch_of request s fetched =
    scan_candidates request.seen_resume_ids s.page (suc s.attempt_no) (length s.hits)
      s.raw_candidate_count s.local_seen_keys fetched.candidates

-- How the loop ends
pub data LoopEnd (W : Type 0) : Type 0 where
  out_of_fuel : LoopEnd W
  raised : LoopEnd W
  ended : ExhaustedReason → Progress → W → LoopEnd W

-- `break`, or the page is turned and the loop goes on
abbrev pub turn_or_end :
    {W : Type 0} → Option ExhaustedReason → Progress → W → (Progress → W → LoopEnd W) → LoopEnd W
turn_or_end (some reason) s w next = ended reason s w
turn_or_end none s w next = next (turn_page s) w

module _ {W : Type 0} (provider : Provider W) (settings : Settings) (request : Request) where
  -- an attempt with what the provider returns for it
  abbrev pub take_page :
      Progress → Option (FetchResult × W) → (Progress → W → LoopEnd W) → LoopEnd W
  take_page s none next = raised
  take_page s (some (fetched, w)) next =
      let b = batch_of request s fetched in
      let taken = absorb s fetched b in
      let end = refill_end settings request fetched.raw_candidate_count taken in
      let page_size = request.target_new - length s.all_new_candidates in
      turn_or_end end (add_attempt (attempt_of page_size fetched b end taken) taken) w next

  abbrev pub try_page :
      Option ExhaustedReason → Progress → W → (Progress → W → LoopEnd W) → LoopEnd W
  try_page (some reason) s w next = ended reason s w
  try_page none s w next =
      take_page s (provider w s.page (request.target_new - length s.all_new_candidates)) next

  unfoldable pub search_loop : ℕ → Progress → W → LoopEnd W
  search_loop zero s w = out_of_fuel
  search_loop (suc fuel) s w =
      try_page (guard settings request s) s w (λ s' w'. search_loop fuel s' w')

abbrev pub start_progress : Request → Progress
start_progress request = record {
  page = max request.page 1;
  attempt_no = 0;
  all_new_candidates = [];
  local_seen_keys = request.seen_dedup_keys;
  raw_candidate_count = 0;
  duplicate_count = 0;
  consecutive_zero_gain_attempts = 0;
  hits = [];
  attempts = [];
}

abbrev pub observe : Request → ExhaustedReason → Progress → SearchObservation
observe request reason s = record {
  requested_count = request.target_new;
  raw_candidate_count = s.raw_candidate_count;
  unique_new_count = length s.all_new_candidates;
  shortage_count = request.target_new - length s.all_new_candidates;
  fetch_attempt_count = length s.attempts;
  exhausted_reason = reason;
  new_resume_ids = map (λ c. c.resume_id) s.all_new_candidates;
}

-- What is returned: the new candidates, the observation, the attempts, the number of duplicates
-- and the hits that were recorded
pub data SearchOutcome (W : Type 0) : Type 0 where
  no_outcome : SearchOutcome W
  search_failed : SearchOutcome W
  searched :
      List Candidate
      → SearchObservation
      → List SearchAttempt
      → ℕ
      → List ResumeHit
      → W
      → SearchOutcome W

abbrev pub outcome_of : {W : Type 0} → Request → LoopEnd W → SearchOutcome W
outcome_of request out_of_fuel = no_outcome
outcome_of request raised = search_failed
outcome_of request (ended reason s w) =
    searched s.all_new_candidates (observe request reason s) s.attempts s.duplicate_count s.hits w

unfoldable pub execute_search_tool :
    {W : Type 0} → Provider W → Settings → Request → W → SearchOutcome W
execute_search_tool provider settings request w = outcome_of request (
    search_loop provider settings request (suc settings.search_max_attempts_per_round)
      (start_progress request) w)
