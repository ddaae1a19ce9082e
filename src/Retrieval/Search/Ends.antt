-- ===== src/Retrieval/Search/Ends.antt =====
-- A search ends within its limits, and what it returns is new.
use cv_match.Retrieval.Search.{
  search_loop, Request, Settings, Progress, ExhaustedReason, LoopEnd, ended, target_satisfied,
  SearchAttempt, out_of_fuel, add_attempt, raised, absorb, batch_of, start_progress, guard,
  refill_end, turn_or_end, take_page, try_page, SearchOutcome, execute_search_tool, turn_page,
  searched, outcome_of, no_outcome, search_failed,
}
use cv_match.Retrieval.Fetches.{FetchResult, mem_key, Candidate, Provider}
use cv_match.Common.{
  ◌-◌, ℕ, zero, max, ◌+◌, str_eq, String, All, ◌≤◌, ◌≡◌, arith, Distinct, length, false, any, List,
  none, some, refl, suc, ◌∙◌, All-append, ap, All-map, ◌++◌, Distinct-append, ◌∷◌, [], any-append,
  Option, sym,
}
use cv_match.Retrieval.Fetches.Scans.{IsUnseen, same_key, scan-fresh, same_key_comm}
use cv_match.Retrieval.Search.Pages.{requested_pages, pages_from, requested-snoc, pages-snoc}

-- What holds of the candidates and the keys at every time
pub record IsFresh (request : Request) (s : Progress) : Type 0 where
  pub unseen : All (IsUnseen request.seen_resume_ids request.seen_dedup_keys) s.all_new_candidates
  pub distinct : Distinct same_key s.all_new_candidates
  pub kept :
      (k : String)
      → mem_key k s.local_seen_keys ≡ false
      → (mem_key k request.seen_dedup_keys ≡ false)
        × (any (λ c. str_eq k c.dedup_key) s.all_new_candidates ≡ false)

-- The attempts that were made: counted, within both limits, and on one page after the other.
pub record IsPaged (settings : Settings) (request : Request) (s : Progress) : Type 0 where
  pub within_attempts : s.attempt_no ≤ settings.search_max_attempts_per_round
  pub within_pages :
      1 ≤ s.attempt_no → max request.page 1 + s.attempt_no ≤ settings.search_max_pages_per_round + 1
  pub paged : requested_pages s.attempts ≡ pages_from (max request.page 1) s.attempt_no

-- before an iteration
pub record IsRunning (settings : Settings) (request : Request) (s : Progress) : Type 0 where
  pub is_fresh : IsFresh request s
  pub is_paged : IsPaged settings request s
  pub page_now : s.page ≡ max request.page 1 + s.attempt_no
  pub short : 1 ≤ request.target_new → suc (length s.all_new_candidates) ≤ request.target_new

-- and after the loop
pub record IsEnd (settings : Settings) (request : Request) (reason : ExhaustedReason) (s : Progress)
    : Type 0 where
  pub is_fresh : IsFresh request s
  pub is_paged : IsPaged settings request s
  pub enough : reason ≡ target_satisfied → request.target_new ≤ length s.all_new_candidates
  pub satisfied :
      1 ≤ request.target_new
      → request.target_new ≤ length s.all_new_candidates
      → reason ≡ target_satisfied

-- The loop has an end, which is good, or the provider raised.
abbrev pub EndsWell : {W : Type 0} → Settings → Request → LoopEnd W → Type 0
EndsWell settings request out_of_fuel = ⊥
EndsWell settings request raised = Unit
EndsWell settings request (ended reason s w) = IsEnd settings request reason s

started-IsRunning :
    (settings : Settings) (request : Request) → IsRunning settings request (start_progress request)
started-IsRunning settings request = record {
  is_fresh = record { unseen = tt; distinct = tt; kept = λ k h. (h, refl) };
  is_paged = record {
    within_attempts = omega arith;
    within_pages = λ h. absurd (omega arith);
    paged = refl;
  };
  page_now = omega arith;
  short = λ h. h;
}

absorb-IsFresh :
    (request : Request) (s : Progress) (fetched : FetchResult) (a : SearchAttempt)
    → IsFresh request s
    → IsFresh request (add_attempt a (absorb s fetched (batch_of request s fetched)))
absorb-IsFresh request s fetched a f = record {
  unseen =
      All-append (IsUnseen request.seen_resume_ids request.seen_dedup_keys) s.all_new_candidates
        fresh f.unseen (All-map fresh (λ c h. ((f.kept c.dedup_key h.0).0, h.1)) scan.0);
  distinct =
      Distinct-append same_key same_key_comm s.all_new_candidates fresh f.distinct scan.1
        (All-map fresh (λ c h. (f.kept c.dedup_key h.0).1) scan.0);
  kept = λ k h.
      let (loc, new) = scan.2 k h in
      let (seen, old) = f.kept k loc in
      (
        seen,
        ground (arith, any-append (λ c. str_eq k c.dedup_key) s.all_new_candidates fresh, old, new),
      );
}
  where
    fresh : List Candidate
    fresh = (batch_of request s fetched).fresh

    scan :
        All (IsUnseen request.seen_resume_ids s.local_seen_keys) fresh
        × Distinct same_key fresh
        × ((k : String)
            → mem_key k (batch_of request s fetched).keys ≡ false
            → (mem_key k s.local_seen_keys ≡ false)
              × (any (λ c. str_eq k c.dedup_key) fresh ≡ false))
    scan =
        scan-fresh request.seen_resume_ids s.page (suc s.attempt_no) (length s.hits)
          s.raw_candidate_count s.local_seen_keys fetched.candidates

-- After an attempt that the guard let through
absorb-IsPaged :
    (settings : Settings) (request : Request) (s : Progress) (fetched : FetchResult)
    (a : SearchAttempt)
    → IsRunning settings request s
    → guard settings request s ≡ none
    → a.requested_page ≡ s.page
    → IsPaged settings request (add_attempt a (absorb s fetched (batch_of request s fetched)))
absorb-IsPaged settings request s fetched a r g page = record {
  within_attempts = ground (arith, r.is_paged.within_attempts, g);
  within_pages = λ h. ground (arith, r.page_now, g);
  paged =
      requested-snoc s.attempts a
      ∙ ap (λ l. l ++ a.requested_page ∷ []) r.is_paged.paged
      ∙ ap (λ p. pages_from (max request.page 1) s.attempt_no ++ p ∷ []) (page ∙ r.page_now)
      ∙ pages-snoc (max request.page 1) s.attempt_no;
}

guard-satisfied :
    (settings : Settings) (request : Request) (s : Progress) (reason : ExhaustedReason)
    → guard settings request s ≡ some reason
    → reason ≡ target_satisfied
    → request.target_new ≤ length s.all_new_candidates
guard-satisfied settings request s reason g e = ground arith

refill-satisfied :
    (settings : Settings) (request : Request) (count : ℕ) (s : Progress) (reason : ExhaustedReason)
    → refill_end settings request count s ≡ some reason
    → (reason ≡ target_satisfied → request.target_new ≤ length s.all_new_candidates)
      × (request.target_new ≤ length s.all_new_candidates → reason ≡ target_satisfied)
refill-satisfied settings request count s reason g = ((λ e. ground arith), (λ e. ground arith))

refill-short :
    (settings : Settings) (request : Request) (count : ℕ) (s : Progress)
    → refill_end settings request count s ≡ none
    → suc (length s.all_new_candidates) ≤ request.target_new
refill-short settings request count s g = ground arith

module _ {W : Type 0} (provider : Provider W) (settings : Settings) (request : Request) where
  -- What the rest of the loop needs of the state that it goes on with
  abbrev GoesOn : ℕ → (Progress → W → LoopEnd W) → Type 0
  GoesOn made next =
      (s : Progress) (w : W)
      → IsRunning settings request s
      → s.attempt_no ≡ suc made
      → EndsWell settings request (next s w)

  turn_or_end-EndsWell :
      (end : Option ExhaustedReason) (made count : ℕ) (s : Progress) (w : W)
      (next : Progress → W → LoopEnd W)
      → refill_end settings request count s ≡ end
      → IsFresh request s
      → IsPaged settings request s
      → s.page + 1 ≡ max request.page 1 + s.attempt_no
      → s.attempt_no ≡ suc made
      → GoesOn made next
      → EndsWell settings request (turn_or_end end s w next)
  turn_or_end-EndsWell (some reason) made count s w next e fresh paged page attempts go =
      let (sat, back) = refill-satisfied settings request count s reason e in
      record { is_fresh = fresh; is_paged = paged; enough = sat; satisfied = λ h k. back k }
  turn_or_end-EndsWell none made count s w next e fresh paged page attempts go =
      go (turn_page s) w
        (record {
          is_fresh = record { unseen = fresh.unseen; distinct = fresh.distinct; kept = fresh.kept };
          is_paged = record {
            within_attempts = paged.within_attempts;
            within_pages = paged.within_pages;
            paged = paged.paged;
          };
          page_now = omega (arith, page);
          short = λ h. refill-short settings request count s e;
        })
        attempts

  take_page-EndsWell :
      (s : Progress) (fetch : Option (FetchResult × W)) (next : Progress → W → LoopEnd W)
      → IsRunning settings request s
      → guard settings request s ≡ none
      → GoesOn s.attempt_no next
      → EndsWell settings request (take_page provider settings request s fetch next)
  take_page-EndsWell s none next r g go = tt
  take_page-EndsWell s (some (fetched, w)) next r g go =
      turn_or_end-EndsWell _ s.attempt_no fetched.raw_candidate_count _ w next refl
        (absorb-IsFresh request s fetched _ r.is_fresh)
        (absorb-IsPaged settings request s fetched _ r g refl) (omega (arith, r.page_now)) refl go

  search_loop-EndsWell :
      (fuel : ℕ) (s : Progress) (w : W)
      → IsRunning settings request s
      → suc settings.search_max_attempts_per_round ≤ fuel + s.attempt_no
      → EndsWell settings request (search_loop provider settings request fuel s w)
  unfolding search_loop
  search_loop-EndsWell zero s w r enough =
      absurd (omega (arith, r.is_paged.within_attempts, enough))
  search_loop-EndsWell (suc fuel) s w r enough =
      first (guard settings request s) refl
        (λ s' w' r' made. search_loop-EndsWell fuel s' w' r' (omega (arith, made, enough)))
    where
      first :
          (end : Option ExhaustedReason)
          → guard settings request s ≡ end
          → GoesOn s.attempt_no (λ s' w'. search_loop provider settings request fuel s' w')
          → EndsWell settings request (
              try_page provider settings request end s w
                (λ s' w'. search_loop provider settings request fuel s' w'))
      first (some reason) e go = record {
        is_fresh = r.is_fresh;
        is_paged = r.is_paged;
        enough = guard-satisfied settings request s reason e;
        satisfied = λ h k. absurd (omega (arith, r.short h, k));
      }
      first none e go = take_page-EndsWell s _ _ r e go

-- What a search returns, when it returns
abbrev pub SearchesWell : {W : Type 0} → Settings → Request → SearchOutcome W → Type 0
SearchesWell settings request no_outcome = ⊥
SearchesWell settings request search_failed = Unit
SearchesWell settings request (searched found seen attempts duplicates hits w) =
    All (IsUnseen request.seen_resume_ids request.seen_dedup_keys) found
    × Distinct same_key found
    × (seen.unique_new_count ≡ length found)
    × (seen.shortage_count ≡ request.target_new - length found)
    × (seen.exhausted_reason ≡ target_satisfied → seen.shortage_count ≡ 0)
    × (1 ≤ request.target_new → seen.shortage_count ≡ 0 → seen.exhausted_reason ≡ target_satisfied)
    × (seen.fetch_attempt_count ≤ settings.search_max_attempts_per_round)
    × (requested_pages attempts ≡ pages_from (max request.page 1) seen.fetch_attempt_count)
    × (1 ≤ seen.fetch_attempt_count
        → max request.page 1 + seen.fetch_attempt_count ≤ settings.search_max_pages_per_round + 1)

length-pages_from : (page n : ℕ) → length (pages_from page n) ≡ n
length-pages_from page zero = refl
length-pages_from page (suc n) = ap suc (length-pages_from (suc page) n)

length-requested_pages :
    (attempts : List SearchAttempt) → length (requested_pages attempts) ≡ length attempts
length-requested_pages [] = refl
length-requested_pages (a ∷ attempts) = ap suc (length-requested_pages attempts)

-- A search always ends, unless the provider raises, whatever the provider returns. The candidates
-- that it returns were not seen before, by key or by identifier, and no two have one key. The
-- shortage is the target less their number; it is 0 where the reason is that the target is
-- satisfied, and only there, if the target is not 0. No more attempts are made than the settings
-- allow, and they request one page after the other, from the first up to the last that the
-- settings allow.
pub execute-SearchesWell :
    {W : Type 0} (provider : Provider W) (settings : Settings) (request : Request) (w : W)
    → SearchesWell settings request (execute_search_tool provider settings request w)
unfolding execute_search_tool
execute-SearchesWell {W} provider settings request w =
    returned
      (search_loop provider settings request (suc settings.search_max_attempts_per_round)
        (start_progress request) w)
      (search_loop-EndsWell provider settings request (suc settings.search_max_attempts_per_round)
        (start_progress request) w (started-IsRunning settings request) (omega arith))
  where
    returned :
        (end : LoopEnd W)
        → EndsWell settings request end
        → SearchesWell settings request (outcome_of request end)
    returned out_of_fuel h = h
    returned raised h = tt
    returned (ended reason s w') h =
        let made : length s.attempts ≡ s.attempt_no =
          sym (length-requested_pages s.attempts)
          ∙ ap length h.is_paged.paged
          ∙ length-pages_from _ s.attempt_no in
        (
          h.is_fresh.unseen,
          h.is_fresh.distinct,
          refl,
          refl,
          (λ e. omega (arith, h.enough e)),
          (λ t z. h.satisfied t (omega (arith, z))),
          omega (arith, made, h.is_paged.within_attempts),
          h.is_paged.paged ∙ ap (pages_from (max request.page 1)) (sym made),
          (λ p. omega (arith, made, h.is_paged.within_pages (omega (arith, p, made)))),
        )
