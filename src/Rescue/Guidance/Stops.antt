-- ===== src/Rescue/Guidance/Stops.antt =====
-- When the stop guidance lets a run stop.
use cv_match.Rescue.Guidance.{
  usable, judge, TopPoolStrength, budget_stop_round, empty, weak, strong, broaden_required,
  low_quality_exhausted, build_controller_context, budget_stop_allowed, build_stop_guidance,
  RunState, continue_low_quality, ScoredCandidate, top_pool_strength_of, strong_fit_candidates,
  is_productive, untried_admitted_families_of, tried_families_of, broadening_attempted_in,
}
use cv_match.Common.{
  ◌/◌, ◌*◌, ◌+◌, if◌then◌else◌, ℕ, Bool, true, leb, not, ltb, false, ◌&&◌, ◌≡◌, arith, ◌||◌, ◌≤◌,
  List, length, select, ap,
}
use cv_match.Text.{Unicode}
use cv_match.QueryPlan.Canonical.{is_empty_list}

-- A pool that is too weak to stop on while something is left to try
abbrev pub is_too_weak : TopPoolStrength → ℕ → Bool
is_too_weak empty strong_fits = true
is_too_weak weak strong_fits = true
is_too_weak usable strong_fits = ltb strong_fits 3
is_too_weak strong strong_fits = false

abbrev pub is_usable : TopPoolStrength → Bool
is_usable usable = true
is_usable _ = false

-- In words: enough rounds are completed; and either the budget is nearly used up, or a family is
-- left to try and the pool is good enough and not merely usable after fewer than two productive
-- rounds, or no family is left and the pool is good enough or broadening was tried.
abbrev pub may_stop : ℕ → ℕ → ℕ → ℕ → TopPoolStrength → ℕ → ℕ → Bool → Bool → Bool
may_stop round_no completed min_rounds max_rounds strength strong_fits productive untried
      broadened =
    leb min_rounds completed
    && (leb (budget_stop_round max_rounds) round_no
        || (if untried
            then not (is_too_weak strength strong_fits)
              && not (is_usable strength && ltb productive 2)
            else not (is_too_weak strength strong_fits) || broadened))

judge-may_stop :
    (round_no completed min_rounds max_rounds : ℕ) (strength : TopPoolStrength)
    (strong_fits productive : ℕ) (untried broadened : Bool)
    → not
        (judge round_no completed min_rounds max_rounds strength strong_fits productive untried
          broadened).continues
      ≡ may_stop round_no completed min_rounds max_rounds strength strong_fits productive untried
          broadened
unfolding judge
judge-may_stop round_no completed min_rounds max_rounds empty strong_fits productive untried
      broadened =
    ground arith
judge-may_stop round_no completed min_rounds max_rounds weak strong_fits productive untried
      broadened =
    ground arith
judge-may_stop round_no completed min_rounds max_rounds usable strong_fits productive untried
      broadened =
    ground arith
judge-may_stop round_no completed min_rounds max_rounds strong strong_fits productive untried
      broadened =
    ground arith

judge-status :
    (round_no completed min_rounds max_rounds : ℕ) (strength : TopPoolStrength)
    (strong_fits productive : ℕ) (untried broadened : Bool)
    → let verdict =
        judge round_no completed min_rounds max_rounds strength strong_fits productive untried
          broadened in
      (verdict.status ≡ broaden_required
        → (verdict.continues ≡ true) × (untried ≡ false) × (broadened ≡ false))
      × (verdict.status ≡ low_quality_exhausted
          → (verdict.continues ≡ false) × (untried ≡ false) × (broadened ≡ true))
      × (verdict.status ≡ budget_stop_allowed
          → (verdict.continues ≡ false) × (budget_stop_round max_rounds ≤ round_no))
      × (verdict.status ≡ continue_low_quality → (verdict.continues ≡ true) × (untried ≡ true))
unfolding judge
judge-status round_no completed min_rounds max_rounds empty strong_fits productive untried
      broadened =
    ground arith
judge-status round_no completed min_rounds max_rounds weak strong_fits productive untried
      broadened =
    ground arith
judge-status round_no completed min_rounds max_rounds usable strong_fits productive untried
      broadened =
    ground arith
judge-status round_no completed min_rounds max_rounds strong strong_fits productive untried
      broadened =
    ground arith

module _ ⦃u : Unicode⦄ where
  -- The guidance of a round lets the run stop exactly when `may_stop` says so of the pool and the
  -- history: not before the minimum of rounds, always near the end of the budget, and between
  -- these only by the quality of the pool, the families left to try and the broadening.
  pub context-may_stop :
      (state : RunState) (top_pool : List ScoredCandidate) (round_no min_rounds max_rounds : ℕ)
      → let guidance =
          (build_controller_context state top_pool round_no min_rounds max_rounds).stop_guidance in
        guidance.can_stop
        ≡ may_stop round_no
            (length state.unique_new_counts)
            min_rounds
            max_rounds
            (top_pool_strength_of top_pool)
            (length (strong_fit_candidates top_pool))
            (length (select is_productive state.unique_new_counts))
            (not (is_empty_list guidance.untried_admitted_families))
            guidance.broadening_attempted
  unfolding build_controller_context build_stop_guidance
  context-may_stop state top_pool round_no min_rounds max_rounds =
      judge-may_stop round_no _ _ _ _ _ _ _ _

  -- What the status of the guidance says. Where a broader round is required, the run goes on, no
  -- family is left to try and none was broadened; where quality is exhausted, the run may stop,
  -- no family is left and broadening was tried; where the budget allows the stop, the run may stop
  -- and 80 percent of the rounds are reached; where low quality makes it go on, a family is left.
  pub context-status :
      (state : RunState) (top_pool : List ScoredCandidate) (round_no min_rounds max_rounds : ℕ)
      → let guidance =
          (build_controller_context state top_pool round_no min_rounds max_rounds).stop_guidance in
        let left = not (is_empty_list guidance.untried_admitted_families) in
        (guidance.quality_gate_status ≡ broaden_required
          → (guidance.can_stop ≡ false) × (left ≡ false) × (guidance.broadening_attempted ≡ false))
        × (guidance.quality_gate_status ≡ low_quality_exhausted
            → (guidance.can_stop ≡ true) × (left ≡ false) × (guidance.broadening_attempted ≡ true))
        × (guidance.quality_gate_status ≡ budget_stop_allowed
            → (guidance.can_stop ≡ true) × (4 * max_rounds ≤ 5 * round_no))
        × (guidance.quality_gate_status ≡ continue_low_quality
            → (guidance.can_stop ≡ false) × (left ≡ true))
  unfolding build_controller_context build_stop_guidance
  context-status state top_pool round_no min_rounds max_rounds =
      let (broaden, exhausted, budget, low) =
        judge-status round_no (length state.unique_new_counts) min_rounds max_rounds
          (top_pool_strength_of top_pool) (length (strong_fit_candidates top_pool))
          (length (select is_productive state.unique_new_counts))
          (not (
            is_empty_list (
              untried_admitted_families_of state.query_term_pool
                (tried_families_of state.query_term_pool state.sent_query_history))))
          (broadening_attempted_in state.query_term_pool state.sent_query_history) in
      (
        (λ h. (ap not (broaden h).0, (broaden h).1, (broaden h).2)),
        (λ h. (ap not (exhausted h).0, (exhausted h).1, (exhausted h).2)),
        (λ h. (ap not (budget h).0, eighty _ _ (budget h).1)),
        (λ h. (ap not (low h).0, (low h).1)),
      )
    where
      eighty : (n r : ℕ) → (4 * n + 4) / 5 ≤ r → 4 * n ≤ 5 * r
      eighty n r h = omega arith

  -- Once the minimum of rounds is completed, the guidance lets a run stop from 80 percent of the
  -- rounds on, and the last round that the maximum allows is one of these.
  pub context-final :
      (state : RunState) (top_pool : List ScoredCandidate) (round_no min_rounds max_rounds : ℕ)
      → let context = build_controller_context state top_pool round_no min_rounds max_rounds in
        min_rounds ≤ context.retrieval_rounds_completed
        → (context.is_final_allowed_round ≡ true → context.near_budget_limit ≡ true)
          × (context.near_budget_limit ≡ true → context.stop_guidance.can_stop ≡ true)
  unfolding build_controller_context
  context-final state top_pool round_no min_rounds max_rounds enough = (
    (λ last. ground arith),
    (λ near.
        ground
          (arith, enough, near, context-may_stop state top_pool round_no min_rounds max_rounds)),
  )
