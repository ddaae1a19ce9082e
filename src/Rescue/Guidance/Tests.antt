-- ===== src/Rescue/Guidance/Tests.antt =====
-- A pool with one strong candidate, before and after the minimum of rounds.
use cv_match.Rescue.Guidance.{
  RunState, ScoredCandidate, StopGuidance, build_controller_context, ControllerContext, fit,
  build_stop_guidance, untried_admitted_families_of, weak, broaden_required, family_candidates,
  tried_families_of, low_quality_exhausted, sent_families, budget_stop_allowed, known_terms,
  continue_low_quality,
}
use cv_match.QueryPlan.Canonical.Tests.{small_pool, go}
use cv_match.Text.Ascii.{ascii}
use cv_match.Text.{
  mem_text, unique_strings, unique_from, normalize_term, strip, lstrip, rstrip, split, scan, join,
  is_space, casefold,
}
use cv_match.Common.{◌≡◌, not, ◌∷◌, ◌≤◌, true, [], arith, some, any, false, none, ◌&&◌, refl}
use cv_match.Rescue.Guidance.Stops.{may_stop, context-final, context-may_stop, context-status}
use cv_match.QueryPlan.Canonical.{is_empty_list}
use cv_match.QueryPlan.Terms.{lookup_term}
use cv_match.Rescue.Guidance.Families.{untried-mem_text, offers}
use cv_match.Common.Sorting.{sort_by, insert_sorted}

abbrev pub good : ScoredCandidate
good = record { fit_bucket = fit; overall_score = 90; must_have_match_score = 80; risk_score = 10 }

abbrev pub started_run : RunState
started_run = record {
  query_term_pool = small_pool;
  sent_query_history = record { query_terms = go ∷ []; rationale = [] } ∷ [];
  unique_new_counts = some 4 ∷ some 0 ∷ none ∷ [];
}

abbrev first_guidance : StopGuidance
first_guidance = (build_controller_context started_run (good ∷ []) 4 1 10).stop_guidance

families : first_guidance.untried_admitted_families ≡ (2 ∷ []) ∷ []
unfolding build_controller_context build_stop_guidance untried_admitted_families_of
    family_candidates tried_families_of sent_families known_terms lookup_term sort_by insert_sorted
    unique_strings unique_from normalize_term strip lstrip rstrip split scan join is_space casefold
    ascii
families = refl

untried-mem_text_example :
    mem_text (3 ∷ []) (untried_admitted_families_of small_pool [])
    ≡ (not (mem_text (3 ∷ []) []) && any (offers (3 ∷ [])) small_pool)
untried-mem_text_example = untried-mem_text small_pool [] (3 ∷ [])

context-may_stop_example :
    first_guidance.can_stop
    ≡ may_stop 4 3 1 10 weak 1 1
        (not (is_empty_list first_guidance.untried_admitted_families))
        first_guidance.broadening_attempted
context-may_stop_example = context-may_stop started_run (good ∷ []) 4 1 10

context-status_example :
    let left = not (is_empty_list first_guidance.untried_admitted_families) in
    (first_guidance.quality_gate_status ≡ broaden_required
      → (first_guidance.can_stop ≡ false)
        × (left ≡ false)
        × (first_guidance.broadening_attempted ≡ false))
    × (first_guidance.quality_gate_status ≡ low_quality_exhausted
        → (first_guidance.can_stop ≡ true)
          × (left ≡ false)
          × (first_guidance.broadening_attempted ≡ true))
    × (first_guidance.quality_gate_status ≡ budget_stop_allowed
        → (first_guidance.can_stop ≡ true) × (40 ≤ 20))
    × (first_guidance.quality_gate_status ≡ continue_low_quality
        → (first_guidance.can_stop ≡ false) × (left ≡ true))
context-status_example = context-status started_run (good ∷ []) 4 1 10

abbrev last_context : ControllerContext
last_context = build_controller_context started_run (good ∷ []) 10 2 10

enough : 2 ≤ last_context.retrieval_rounds_completed
unfolding build_controller_context
enough = omega arith

context-final_example :
    (last_context.is_final_allowed_round ≡ true → last_context.near_budget_limit ≡ true)
    × (last_context.near_budget_limit ≡ true → last_context.stop_guidance.can_stop ≡ true)
context-final_example = context-final started_run (good ∷ []) 10 2 10 enough
