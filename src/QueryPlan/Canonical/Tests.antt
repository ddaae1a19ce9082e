-- ===== src/QueryPlan/Canonical/Tests.antt =====
-- A pool of three terms: a role anchor "go", and the skills "k8s" and "sql", of which the second
-- is inactive.
use cv_match.Text.Ascii.{ascii}
use cv_match.Text.{
  Text, unique_strings, unique_from, normalize_term, strip, lstrip, rstrip, split, scan, join,
  is_space, casefold,
}
use cv_match.Common.{List, ℕ, Bool, ◌∷◌, [], true, false, ◌>>=◌, ◌≡◌, ok, err, refl}
use cv_match.QueryPlan.Canonical.{
  canonicalize_controller_query_terms, Rules, check_candidates, check_companions, pool_candidates,
  inactive_terms,
}
use cv_match.QueryPlan.Canonical.Accepted.{canonicalize-IsAccepted}
use cv_match.QueryPlan.Canonical.Queries.{IsAccepted}
use cv_match.QueryPlan.Terms.{
  QueryTermCandidate, RetrievalRole, admitted, primary_role_anchor, core_skill, lookup_term,
  duplicate_families, duplicates_from,
}

abbrev pub pool_item : Text → ℕ → Bool → RetrievalRole → Text → QueryTermCandidate
pool_item term priority active role family = record {
  term = term;
  priority = priority;
  first_added_round = 0;
  active = active;
  retrieval_role = role;
  queryability = admitted;
  family = family;
}

abbrev pub go : Text
go = 103 ∷ 111 ∷ []

abbrev pub k8s : Text
k8s = 107 ∷ 56 ∷ 115 ∷ []

abbrev pub sql : Text
sql = 115 ∷ 113 ∷ 108 ∷ []

abbrev pub small_pool : List QueryTermCandidate
small_pool =
    pool_item go 1 true primary_role_anchor (1 ∷ [])
    ∷ pool_item k8s 2 true core_skill (2 ∷ [])
    ∷ pool_item sql 3 false core_skill (3 ∷ [])
    ∷ []

abbrev pub strict_rules : ℕ → Rules
strict_rules round_no = record {
  round_no = round_no;
  allow_inactive_non_anchor_terms = false;
  allowed_inactive_non_anchor_terms = [];
  allow_anchor_only = false;
}

accepted :
    canonicalize_controller_query_terms small_pool
      (strict_rules 1)
      (k8s ∷ (32 ∷ 71 ∷ 111 ∷ []) ∷ [])
    ≡ ok (go ∷ k8s ∷ [])
unfolding canonicalize_controller_query_terms check_candidates check_companions ◌>>=◌
    pool_candidates lookup_term duplicate_families duplicates_from unique_strings unique_from
    normalize_term strip lstrip rstrip split scan join is_space casefold ascii
accepted = refl

inactive_refused :
    canonicalize_controller_query_terms small_pool (strict_rules 2) (go ∷ sql ∷ [])
    ≡ err inactive_terms
unfolding canonicalize_controller_query_terms check_candidates check_companions ◌>>=◌
    pool_candidates lookup_term duplicate_families duplicates_from unique_strings unique_from
    normalize_term strip lstrip rstrip split scan join is_space casefold ascii
inactive_refused = refl

canonicalize-IsAccepted_example : IsAccepted small_pool (strict_rules 1) (go ∷ k8s ∷ [])
canonicalize-IsAccepted_example =
    canonicalize-IsAccepted small_pool (strict_rules 1) (k8s ∷ (32 ∷ 71 ∷ 111 ∷ []) ∷ [])
      (go ∷ k8s ∷ []) accepted
