-- ===== src/QueryPlan/Selection/Tests.antt =====
-- Selection from the small pool.
use cv_match.QueryPlan.Canonical.Tests.{small_pool, go, sql}
use cv_match.Text.Ascii.{ascii}
use cv_match.Common.{◌∷◌, [], false, ◌≡◌, ◌>>=◌, ok, refl}
use cv_match.QueryPlan.Selection.{
  PlanRequest, RoundRetrievalPlan, build_round_retrieval_plan, plan_role_anchor_terms, anchor_terms,
  serialize_keyword_query,
}
use cv_match.QueryPlan.Canonical.{
  canonicalize_controller_query_terms, check_candidates, check_companions, pool_candidates,
}
use cv_match.QueryPlan.Locations.{build_location_execution_plan}
use cv_match.QueryPlan.Terms.{lookup_term, duplicate_families, duplicates_from}
use cv_match.Text.{
  unique_strings, unique_from, normalize_term, strip, lstrip, rstrip, split, scan, join, is_space,
  casefold,
}

abbrev round_two : PlanRequest
round_two = record {
  plan_version = 1;
  round_no = 2;
  query_terms = go ∷ sql ∷ [];
  location_execution_plan = build_location_execution_plan [] [] 2 10;
  target_new = 10;
  allowed_inactive_non_anchor_terms = sql ∷ [];
  allow_anchor_only_query = false;
}

abbrev plan_two : RoundRetrievalPlan
plan_two = record {
  plan_version = 1;
  round_no = 2;
  query_terms = go ∷ sql ∷ [];
  role_anchor_terms = go ∷ [];
  must_have_anchor_terms = sql ∷ [];
  keyword_query = 103 ∷ 111 ∷ 32 ∷ 115 ∷ 113 ∷ 108 ∷ [];
  location_execution_plan = build_location_execution_plan [] [] 2 10;
  target_new = 10;
}

built : build_round_retrieval_plan small_pool round_two ≡ ok plan_two
unfolding build_round_retrieval_plan plan_role_anchor_terms anchor_terms serialize_keyword_query
    canonicalize_controller_query_terms check_candidates check_companions ◌>>=◌ pool_candidates
    lookup_term duplicate_families duplicates_from unique_strings unique_from normalize_term strip
    lstrip rstrip split scan join is_space casefold ascii
built = refl
