-- ===== src/Retrieval/Search/Dispatch.antt =====
-- `_run_city_dispatch` of runtime/retrieval_runtime.py: a search in one city, which goes on at the
-- page where the last one in this city stopped.
use cv_match.Retrieval.Search.{
  execute_search_tool, ExhaustedReason, SearchObservation, SearchOutcome, SearchAttempt, Request,
  searched, Settings, target_satisfied, no_outcome, search_failed, cts_exhausted,
  no_progress_repeated_results, max_attempts_reached, max_pages_reached,
}
use cv_match.Retrieval.Fetches.{Provider, Candidate}
use cv_match.Common.{
  if◌then◌else◌, ℕ, String, ◌+◌, max, suc, Bool, Option, List, true, some, ◌≡◌, false, ◌≤◌, none,
  arith, ◌∷◌, ap, ◌∙◌, refl, zero, [], not,
}
use cv_match.Retrieval.Search.Pages.{requested_pages, last_page, pages_from, last-page}
use cv_match.Retrieval.Search.Ends.{SearchesWell, execute-SearchesWell}

pub record CityExecutionState : Type 0 where
  pub next_page : ℕ
  pub exhausted : Bool

pub record CitySearchSummary : Type 0 where
  pub requested_count : ℕ
  pub unique_new_count : ℕ
  pub shortage_count : ℕ
  pub start_page : ℕ
  pub next_page : ℕ
  pub fetch_attempt_count : ℕ
  pub exhausted_reason : ExhaustedReason

abbrev pub is_target_satisfied : ExhaustedReason → Bool
is_target_satisfied target_satisfied = true
is_target_satisfied _ = false

abbrev pub page_after : ℕ → Option ℕ → ℕ
page_after page none = page
page_after page (some last) = last + 1

abbrev pub city_after :
    CityExecutionState → SearchObservation → List SearchAttempt → CityExecutionState
city_after city seen attempts = record {
  next_page = page_after city.next_page (last_page attempts);
  exhausted = if not (is_target_satisfied seen.exhausted_reason) then true else city.exhausted;
}

abbrev pub summary_of :
    ℕ → CityExecutionState → CityExecutionState → SearchObservation → CitySearchSummary
summary_of requested city city' seen = record {
  requested_count = requested;
  unique_new_count = seen.unique_new_count;
  shortage_count = seen.shortage_count;
  start_page = city.next_page;
  next_page = city'.next_page;
  fetch_attempt_count = seen.fetch_attempt_count;
  exhausted_reason = seen.exhausted_reason;
}

pub data DispatchOutcome (W : Type 0) : Type 0 where
  no_dispatch : DispatchOutcome W
  dispatch_failed : DispatchOutcome W
  dispatched :
      List Candidate
      → List SearchAttempt
      → CityExecutionState
      → CitySearchSummary
      → W
      → DispatchOutcome W

abbrev pub request_of : CityExecutionState → ℕ → List String → List String → Request
request_of city requested_count ids keys = record {
  page = city.next_page;
  target_new = requested_count;
  seen_resume_ids = ids;
  seen_dedup_keys = keys;
}

abbrev pub dispatch_of : {W : Type 0} → CityExecutionState → ℕ → SearchOutcome W → DispatchOutcome W
dispatch_of city requested_count no_outcome = no_dispatch
dispatch_of city requested_count search_failed = dispatch_failed
dispatch_of city requested_count (searched found seen attempts duplicates hits w) =
    let city' = city_after city seen attempts in
    dispatched found attempts city' (summary_of requested_count city city' seen) w

unfoldable pub run_city_dispatch :
    {W : Type 0}
    → Provider W
    → Settings
    → CityExecutionState
    → ℕ
    → List String
    → List String
    → W
    → DispatchOutcome W
run_city_dispatch provider settings city requested_count ids keys w =
    dispatch_of city requested_count
      (execute_search_tool provider settings (request_of city requested_count ids keys) w)

-- What a dispatch does to the state of its city
abbrev pub GoesOnWhereItStopped : {W : Type 0} → CityExecutionState → ℕ → DispatchOutcome W → Type 0
GoesOnWhereItStopped city requested_count no_dispatch = ⊥
GoesOnWhereItStopped city requested_count dispatch_failed = Unit
GoesOnWhereItStopped city requested_count (dispatched found attempts city' summary w) =
    (requested_pages attempts ≡ pages_from city.next_page summary.fetch_attempt_count)
    × (city'.next_page ≡ city.next_page + summary.fetch_attempt_count)
    × (summary.next_page ≡ city'.next_page)
    × (city'.exhausted ≡ false → (city.exhausted ≡ false) × (summary.shortage_count ≡ 0))
    × (1 ≤ requested_count
        → city.exhausted ≡ false
        → summary.shortage_count ≡ 0
        → city'.exhausted ≡ false)

after-pages :
    (page n : ℕ) (attempts : List SearchAttempt)
    → requested_pages attempts ≡ pages_from page n
    → page_after page (last_page attempts) ≡ page + n
after-pages page zero [] h = omega arith
after-pages page zero (a ∷ attempts) h = cc
after-pages page (suc n) attempts h =
    ap (page_after page) (last-page attempts page n h) ∙ omega arith

stays-open :
    (reason : ExhaustedReason) (c : Bool)
    → (if not (is_target_satisfied reason) then true else c) ≡ false
    → (reason ≡ target_satisfied) × (c ≡ false)
stays-open target_satisfied c h = (refl, h)
stays-open cts_exhausted c h = cc
stays-open no_progress_repeated_results c h = cc
stays-open max_attempts_reached c h = cc
stays-open max_pages_reached c h = cc

satisfied-open :
    (reason : ExhaustedReason) (c : Bool)
    → reason ≡ target_satisfied
    → c ≡ false
    → (if not (is_target_satisfied reason) then true else c) ≡ false
satisfied-open reason c e h = rw e h

-- A dispatch in a city whose next page is at least 1 requests the pages from the city's next page
-- on, one after the other, and leaves the page behind them as the next. A city that was not
-- exhausted stays so exactly when the shortage is 0, provided that something was requested. The
-- dispatch has a result unless the provider raises.
pub run-goes_on :
    {W : Type 0} (provider : Provider W) (settings : Settings) (city : CityExecutionState)
    (requested_count : ℕ) (ids keys : List String) (w : W)
    → 1 ≤ city.next_page
    → GoesOnWhereItStopped city requested_count
        (run_city_dispatch provider settings city requested_count ids keys w)
unfolding run_city_dispatch
run-goes_on {W} provider settings city requested_count ids keys w first =
    returned (execute_search_tool provider settings (request_of city requested_count ids keys) w)
      (execute-SearchesWell provider settings (request_of city requested_count ids keys) w)
  where
    same : max city.next_page 1 ≡ city.next_page
    same = omega arith

    returned :
        (out : SearchOutcome W)
        → SearchesWell settings (request_of city requested_count ids keys) out
        → GoesOnWhereItStopped city requested_count (dispatch_of city requested_count out)
    returned no_outcome h = h
    returned search_failed h = tt
    returned (searched found seen attempts duplicates hits w') h =
        let pages = h.7 ∙ ap (λ p. pages_from p seen.fetch_attempt_count) same in
        (
          pages,
          after-pages _ _ attempts pages,
          refl,
          (λ e.
              let (reason, open_) = stays-open seen.exhausted_reason city.exhausted e in
              (open_, h.4 reason)),
          (λ r open_ z. satisfied-open seen.exhausted_reason city.exhausted (h.5 r z) open_),
        )
