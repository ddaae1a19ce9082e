-- ===== src/QueryPlan/Canonical.antt =====
-- `canonicalize_controller_query_terms` of query_plan.py: the tests that a proposed query passes,
-- in the order of the source, and the query that it becomes. A `ValueError` is a constructor of
-- `PlanError`, without the text of its message.
mod Families
pub mod Queries
pub mod Accepted
pub mod Tests
use cv_match.Text.{
  Text, Unicode, is_blank, text_eq, unique_strings, normalize_term, casefold, mem_text,
}
use cv_match.Common.{
  ◌>>=◌, ◌>>◌, ℕ, List, Bool, ◌∷◌, Option, true, if◌then◌else◌, map, some, Result, not, false, err,
  ◌&&◌, select, ok, length, [], none, refuse, ◌==◌, ltb, any, ◌||◌,
}
use cv_match.QueryPlan.Terms.{
  QueryTermCandidate, lookup_term, is_title_anchor_candidate, term_key, is_primary_anchor_candidate,
  is_admitted, is_secondary_role, duplicate_families,
}

pub data PlanError : Type 0 where
  duplicate_terms too_few_terms too_many_terms not_in_pool anchor_only_refused : PlanError
  not_admitted anchor_count round_one_companions later_companions : PlanError
  secondary_support inactive_terms repeated_families : PlanError
  no_anchor no_non_anchor : PlanError

-- the keyword arguments
pub record Rules : Type 0 where
  pub round_no : ℕ
  pub allow_inactive_non_anchor_terms : Bool
  pub allowed_inactive_non_anchor_terms : List Text
  pub allow_anchor_only : Bool

abbrev pub is_empty_list {ℓ} : {A : Type ℓ} → List A → Bool
is_empty_list [] = true
is_empty_list (x ∷ xs) = false

-- `[normalize_term(item) for item in proposed_terms if normalize_term(item)]`
abbrev pub normalized_terms : List Text → List Text
normalized_terms [] = []
normalized_terms (t ∷ ts) =
    let rest = normalized_terms ts in
    if is_blank (normalize_term t) then rest else normalize_term t ∷ rest

abbrev pub terms_of : List QueryTermCandidate → List Text
terms_of items = map (λ item. item.term) items

module _ ⦃u : Unicode⦄ where
  -- `[term_index[term.casefold()] for term in unique_terms]`, where no term is missing
  unfoldable pub pool_candidates :
      List QueryTermCandidate → List Text → Option (List QueryTermCandidate)
  pool_candidates pool [] = some []
  pool_candidates pool (t ∷ ts) = elim (lookup_term pool (casefold t)) [
    | none ↦ none
    | some item ↦ elim (pool_candidates pool ts) [ none ↦ none | some items ↦ some (item ∷ items) ]
  ]

  abbrev pub found_all :
      Option (List QueryTermCandidate) → Result PlanError (List QueryTermCandidate)
  found_all none = err not_in_pool
  found_all (some items) = ok items

  abbrev pub is_companion : QueryTermCandidate → QueryTermCandidate → Bool
  is_companion anchor item = not (text_eq (casefold item.term) (casefold anchor.term))

  -- the test of `inactive_terms`
  abbrev pub is_refused_inactive : Rules → QueryTermCandidate → Bool
  is_refused_inactive rules item =
      not rules.allow_inactive_non_anchor_terms
      && (not item.active
          && (not (is_title_anchor_candidate item)
              && not (mem_text (term_key item.term) rules.allowed_inactive_non_anchor_terms)))

  -- from the one primary anchor on
  unfoldable pub check_companions :
      Rules → List QueryTermCandidate → QueryTermCandidate → Result PlanError (List Text)
  check_companions rules candidates anchor = do
    let companions = select (is_companion anchor) candidates
    let count = length companions
    refuse (rules.round_no == 1 && not (count == 1)) round_one_companions
    refuse (ltb 1 rules.round_no && not (count == 1 || count == 2)) later_companions
    refuse (ltb 1 rules.round_no && any (λ item. is_secondary_role item.retrieval_role) companions)
        secondary_support
    refuse (any (is_refused_inactive rules) companions) inactive_terms
    refuse (not (is_empty_list (duplicate_families candidates))) repeated_families
    ok (anchor.term ∷ terms_of companions)

  -- `primary_anchors[0]`, where there is exactly one
  abbrev pub one_anchor : List QueryTermCandidate → Result PlanError QueryTermCandidate
  one_anchor (anchor ∷ []) = ok anchor
  one_anchor _ = err anchor_count

  -- from the candidates of the pool on
  unfoldable pub check_candidates : Rules → List QueryTermCandidate → Result PlanError (List Text)
  check_candidates rules (candidate ∷ []) = do
    refuse (not (rules.allow_anchor_only && is_primary_anchor_candidate candidate))
        anchor_only_refused
    ok (candidate.term ∷ [])
  check_candidates rules candidates = do
    refuse (any (λ item. not (is_admitted item)) candidates) not_admitted
    anchor ← one_anchor (select is_primary_anchor_candidate candidates)
    check_companions rules candidates anchor

  unfoldable pub canonicalize_controller_query_terms :
      List QueryTermCandidate → Rules → List Text → Result PlanError (List Text)
  canonicalize_controller_query_terms pool rules proposed_terms = do
    let terms = normalized_terms proposed_terms
    let unique_terms = unique_strings terms
    refuse (not (length terms == length unique_terms)) duplicate_terms
    refuse (ltb (length unique_terms) 2 && not rules.allow_anchor_only) too_few_terms
    refuse (ltb 3 (length unique_terms)) too_many_terms
    candidates ← found_all (pool_candidates pool unique_terms)
    check_candidates rules candidates
