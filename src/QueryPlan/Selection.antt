-- ===== src/QueryPlan/Selection.antt =====
-- The query that the program itself chooses for a round, and the plan of the round:
-- `select_query_terms`, `serialize_keyword_query`, `_plan_role_anchor_terms` and
-- `build_round_retrieval_plan` of query_plan.py. The provider filters, the runtime-only constraints
-- and the rationale of a plan, which these functions only pass on, are left out.
mod Picks
mod Proposals
mod Tests
use cv_match.Common.{
  ◌>>=◌, ◌>>◌, ◌-◌, min, if◌then◌else◌, List, ℕ, ◌∷◌, Bool, false, Result, Option, ◌==◌, any, ◌++◌,
  map, [], some, ◌||◌, leb, select, length, err, ◌&&◌, refuse, ok, none, not,
}
use cv_match.QueryPlan.Terms.{
  QueryTermCandidate, term_before, non_anchor_before, lookup_term, is_title_anchor_candidate,
  term_key, is_primary_anchor_candidate, is_admitted, is_secondary_role,
}
use cv_match.Text.{Text, Unicode, normalize_term, join, unique_strings, mem_text}
use cv_match.QueryPlan.Canonical.{
  Rules, PlanError, canonicalize_controller_query_terms, no_anchor, is_empty_list, no_non_anchor,
  terms_of,
}
use cv_match.Common.Sorting.{sort_by}
use cv_match.QueryPlan.Locations.{LocationExecutionPlan}

-- `clean.replace("\\", "\\\\").replace('"', '\\"')`, character by character
abbrev pub escape : Text → Text
escape [] = []
escape (c ∷ s) = if c == 92 || c == 34 then 92 ∷ c ∷ escape s else c ∷ escape s

abbrev pub has_space : Text → Bool
has_space s = any (λ c. c == 32 || c == 9) s

abbrev pub quoted : Text → Text
quoted s = (34 ∷ escape s) ++ (34 ∷ [])

abbrev pub serialize_term : Text → Text
serialize_term term =
    let clean = normalize_term term in if has_space clean then quoted clean else clean

unfoldable pub serialize_keyword_query : List Text → Text
serialize_keyword_query terms = join (map serialize_term terms)

module _ ⦃u : Unicode⦄ where
  -- the loop of `select_query_terms` over the ordered non-anchor terms
  unfoldable pub pick_terms : ℕ → List Text → List QueryTermCandidate → List QueryTermCandidate
  pick_terms budget used [] = []
  pick_terms budget used (item ∷ items) =
      let skip = pick_terms budget used items in
      let more = pick_terms (budget - 1) (item.family ∷ used) items in
      if mem_text item.family used then skip else if leb budget 1 then item ∷ [] else item ∷ more

  abbrev pub plain_rules : ℕ → Rules
  plain_rules round_no = record {
    round_no = round_no;
    allow_inactive_non_anchor_terms = false;
    allowed_inactive_non_anchor_terms = [];
    allow_anchor_only = false;
  }

  abbrev pub active_anchors : List QueryTermCandidate → List QueryTermCandidate
  active_anchors pool =
      sort_by term_before (select (λ item. item.active && is_primary_anchor_candidate item) pool)

  abbrev pub active_secondary_anchors : List QueryTermCandidate → List QueryTermCandidate
  active_secondary_anchors pool = sort_by term_before (
      select (λ item. item.active && (is_admitted item && is_secondary_role item.retrieval_role))
        pool)

  abbrev pub active_non_anchors : List QueryTermCandidate → List QueryTermCandidate
  active_non_anchors pool = sort_by non_anchor_before (
      select (λ item. item.active && (is_admitted item && not (is_title_anchor_candidate item)))
        pool)

  -- from the ordered non-anchor terms on
  unfoldable pub select_non_anchors :
      List QueryTermCandidate → ℕ → QueryTermCandidate → Result PlanError (List Text)
  select_non_anchors pool round_no anchor = do
    let ordered = active_non_anchors pool
    let non_anchor_budget = if round_no == 1 then 1 else min 2 (length ordered)
    let selected = pick_terms non_anchor_budget (anchor.family ∷ []) ordered
    refuse (is_empty_list selected) no_non_anchor
    canonicalize_controller_query_terms pool (plain_rules round_no)
        (anchor.term ∷ terms_of selected)

  abbrev pub select_secondary :
      List QueryTermCandidate
      → ℕ
      → QueryTermCandidate
      → List QueryTermCandidate
      → Result PlanError (List Text)
  select_secondary pool round_no anchor [] = select_non_anchors pool round_no anchor
  select_secondary pool round_no anchor (secondary ∷ rest) =
      canonicalize_controller_query_terms pool (plain_rules round_no)
        (anchor.term ∷ secondary.term ∷ [])

  abbrev pub select_with :
      List QueryTermCandidate → ℕ → List QueryTermCandidate → Result PlanError (List Text)
  select_with pool round_no [] = err no_anchor
  select_with pool round_no (anchor ∷ anchors) =
      if round_no == 1
      then select_secondary pool round_no anchor (active_secondary_anchors pool)
      else select_non_anchors pool round_no anchor

  unfoldable pub select_query_terms : List QueryTermCandidate → ℕ → Result PlanError (List Text)
  select_query_terms pool round_no = select_with pool round_no (active_anchors pool)

  abbrev pub anchor_term_of : Option QueryTermCandidate → List Text → List Text
  anchor_term_of none rest = rest
  anchor_term_of (some candidate) rest =
      if is_title_anchor_candidate candidate then candidate.term ∷ rest else rest

  unfoldable pub anchor_terms : List QueryTermCandidate → List Text → List Text
  anchor_terms pool [] = []
  anchor_terms pool (term ∷ terms) =
      anchor_term_of (lookup_term pool (term_key term)) (anchor_terms pool terms)

  unfoldable pub plan_role_anchor_terms : List QueryTermCandidate → List Text → List Text
  plan_role_anchor_terms pool query_terms = unique_strings (anchor_terms pool query_terms)

pub record RoundRetrievalPlan : Type 0 where
  pub plan_version : ℕ
  pub round_no : ℕ
  pub query_terms : List Text
  pub role_anchor_terms : List Text
  pub must_have_anchor_terms : List Text
  pub keyword_query : Text
  pub location_execution_plan : LocationExecutionPlan
  pub target_new : ℕ

pub record PlanRequest : Type 0 where
  pub plan_version : ℕ
  pub round_no : ℕ
  pub query_terms : List Text
  pub location_execution_plan : LocationExecutionPlan
  pub target_new : ℕ
  pub allowed_inactive_non_anchor_terms : List Text
  pub allow_anchor_only_query : Bool

abbrev pub rules_of : PlanRequest → Rules
rules_of request = record {
  round_no = request.round_no;
  allow_inactive_non_anchor_terms = false;
  allowed_inactive_non_anchor_terms = request.allowed_inactive_non_anchor_terms;
  allow_anchor_only = request.allow_anchor_only_query;
}

unfoldable pub build_round_retrieval_plan :
    ⦃u : Unicode⦄ → List QueryTermCandidate → PlanRequest → Result PlanError RoundRetrievalPlan
build_round_retrieval_plan pool request = do
  canonical_terms ← canonicalize_controller_query_terms pool (rules_of request) request.query_terms
  let role_anchor_terms = plan_role_anchor_terms pool canonical_terms
  ok (record {
    plan_version = request.plan_version;
    round_no = request.round_no;
    query_terms = canonical_terms;
    role_anchor_terms = role_anchor_terms;
    must_have_anchor_terms = select (λ term. not (mem_text term role_anchor_terms)) canonical_terms;
    keyword_query = serialize_keyword_query canonical_terms;
    location_execution_plan = request.location_execution_plan;
    target_new = request.target_new;
  })
