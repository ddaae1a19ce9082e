-- ===== src/Retrieval/Search/Bounds.antt =====
-- The number of the candidates that a search returns, where the provider keeps to the page size.
use cv_match.Retrieval.Search.{
  search_loop, Request, execute_search_tool, LoopEnd, SearchOutcome, Settings, ended, searched,
  Progress, outcome_of, ExhaustedReason, turn_or_end, take_page, try_page, start_progress,
  out_of_fuel, no_outcome, turn_page, batch_of, guard, raised, search_failed,
}
use cv_match.Common.{
  zero, ℕ, ◌-◌, ◌+◌, ◌≡◌, Option, some, length, arith, ◌≤◌, suc, none, length-append, refl,
}
use cv_match.Retrieval.Fetches.{Provider, FetchResult}
use cv_match.Retrieval.Fetches.Scans.{scan-length}

-- A provider that returns at most as many candidates as it was asked for
abbrev pub KeepsToSize : {W : Type 0} → Provider W → Type 0
KeepsToSize {W} provider =
    (w : W) (page page_size : ℕ) (fetched : FetchResult) (w' : W)
    → provider w page page_size ≡ some (fetched, w')
    → length fetched.candidates ≤ page_size

abbrev Fits : {W : Type 0} → Request → LoopEnd W → Type 0
Fits request out_of_fuel = Unit
Fits request raised = Unit
Fits request (ended reason s w) = length s.all_new_candidates ≤ request.target_new

-- A search that returns does not return more candidates than wanted.
abbrev pub IsBounded : {W : Type 0} → Request → SearchOutcome W → Type 0
IsBounded request no_outcome = Unit
IsBounded request search_failed = Unit
IsBounded request (searched found seen attempts duplicates hits w) =
    (length found ≤ request.target_new) × (length found + seen.shortage_count ≡ request.target_new)

module _ {W : Type 0} (provider : Provider W) (settings : Settings) (request : Request)
    (keeps : KeepsToSize provider) where
  turn_or_end-Fits :
      (end : Option ExhaustedReason) (s : Progress) (w : W) (next : Progress → W → LoopEnd W)
      → length s.all_new_candidates ≤ request.target_new
      → ((s' : Progress) (w' : W)
          → length s'.all_new_candidates ≤ request.target_new
          → Fits request (next s' w'))
      → Fits request (turn_or_end end s w next)
  turn_or_end-Fits (some reason) s w next h go = h
  turn_or_end-Fits none s w next h go = go (turn_page s) w h

  take_page-Fits :
      (s : Progress) (w : W) (fetch : Option (FetchResult × W)) (next : Progress → W → LoopEnd W)
      → provider w s.page (request.target_new - length s.all_new_candidates) ≡ fetch
      → length s.all_new_candidates ≤ request.target_new
      → ((s' : Progress) (w' : W)
          → length s'.all_new_candidates ≤ request.target_new
          → Fits request (next s' w'))
      → Fits request (take_page provider settings request s fetch next)
  take_page-Fits s w none next e h go = tt
  take_page-Fits s w (some (fetched, w')) next e h go =
      let b = batch_of request s fetched in
      let scanned =
        (scan-length request.seen_resume_ids s.page (suc s.attempt_no) (length s.hits)
          s.raw_candidate_count s.local_seen_keys fetched.candidates).0 in
      let asked = keeps w s.page _ fetched w' e in
      turn_or_end-Fits _ _ w' next
        (omega (arith, h, length-append s.all_new_candidates b.fresh, scanned, asked)) go

  search_loop-Fits :
      (fuel : ℕ) (s : Progress) (w : W)
      → length s.all_new_candidates ≤ request.target_new
      → Fits request (search_loop provider settings request fuel s w)
  unfolding search_loop
  search_loop-Fits zero s w h = tt
  search_loop-Fits (suc fuel) s w h =
      first (guard settings request s) (λ s' w' h'. search_loop-Fits fuel s' w' h')
    where
      first :
          (end : Option ExhaustedReason)
          → ((s' : Progress) (w' : W)
              → length s'.all_new_candidates ≤ request.target_new
              → Fits request (search_loop provider settings request fuel s' w'))
          → Fits request (
              try_page provider settings request end s w
                (λ s' w'. search_loop provider settings request fuel s' w'))
      first (some reason) go = h
      first none go = take_page-Fits s w _ _ refl h go

-- Where the provider never returns more candidates than it is asked for, a search returns no more
-- than its target, and what it returns and the shortage add up to the target.
pub execute-IsBounded :
    {W : Type 0} (provider : Provider W) (settings : Settings) (request : Request) (w : W)
    → KeepsToSize provider
    → IsBounded request (execute_search_tool provider settings request w)
unfolding execute_search_tool
execute-IsBounded {W} provider settings request w keeps =
    returned
      (search_loop provider settings request (suc settings.search_max_attempts_per_round)
        (start_progress request) w)
      (search_loop-Fits provider settings request keeps (suc settings.search_max_attempts_per_round)
        (start_progress request) w (omega arith))
  where
    returned : (end : LoopEnd W) → Fits request end → IsBounded request (outcome_of request end)
    returned out_of_fuel h = tt
    returned raised h = tt
    returned (ended reason s w') h = (h, omega (arith, h))
