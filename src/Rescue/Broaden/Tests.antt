-- ===== src/Rescue/Broaden/Tests.antt =====
-- The small pool with every family but that of its inactive term tried.
use cv_match.Rescue.Broaden.{
  force_broaden_decision, BroadenDecision, activate_query_term, rationale_of, untried_reserve,
  reserve_family,
}
use cv_match.QueryPlan.Canonical.Tests.{small_pool, go, k8s, sql, pool_item}
use cv_match.Text.Ascii.{ascii}
use cv_match.Common.{List, ◌++◌, [], ◌≡◌, ◌∷◌, true, ◌≢◌, some, ◌>>=◌, ok, refl, inl}
use cv_match.Rescue.Guidance.{
  RunState, build_controller_context, SentQueryRecord, sent_families, known_terms, broaden_required,
}
use cv_match.QueryPlan.Terms.{lookup_term, primary_role_anchor, core_skill}
use cv_match.Common.Sorting.{sort_by, insert_sorted}
use cv_match.Rescue.Broaden.Settled.{broaden-settled}
use cv_match.Text.{normalize_term, strip, lstrip, rstrip, split, scan, join, is_space, casefold}

abbrev sent_so_far : List SentQueryRecord
sent_so_far = record { query_terms = go ∷ k8s ∷ []; rationale = [] } ∷ []

abbrev expected : BroadenDecision
expected = record {
  decision_rationale = rationale_of (reserve_family ++ 3 ∷ []) (120 ∷ []);
  proposed_query_terms = go ∷ sql ∷ [];
  query_term_pool =
      pool_item go 1 true primary_role_anchor (1 ∷ [])
      ∷ pool_item k8s 2 true core_skill (2 ∷ [])
      ∷ pool_item sql 3 true core_skill (3 ∷ [])
      ∷ [];
}

broadened : force_broaden_decision small_pool sent_so_far (120 ∷ []) ≡ ok expected
unfolding force_broaden_decision activate_query_term untried_reserve sent_families known_terms
    lookup_term sort_by insert_sorted ◌>>=◌ normalize_term strip lstrip rstrip split scan join
    is_space casefold ascii
broadened = refl

abbrev later_run : RunState
later_run = record {
  query_term_pool = expected.query_term_pool;
  sent_query_history =
      sent_so_far
      ++ record { query_terms = go ∷ sql ∷ []; rationale = expected.decision_rationale } ∷ [];
  unique_new_counts = some 4 ∷ some 0 ∷ [];
}

broaden-settled_example :
    let guidance = (build_controller_context later_run [] 3 1 10).stop_guidance in
    (guidance.broadening_attempted ≡ true) × (guidance.quality_gate_status ≢ broaden_required)
broaden-settled_example =
    broaden-settled small_pool sent_so_far (120 ∷ []) expected (inl broadened) later_run sent_so_far
      [] (go ∷ sql ∷ []) refl [] 3 1 10
