-- ===== src/QueryPlan/Selection/Proposals.antt =====
-- What `select_query_terms` proposes before the tests of a proposed query.
use cv_match.QueryPlan.Selection.{plain_rules}
use cv_match.Common.{
  ℕ, ◌≤◌, List, ◌≡◌, not, ok, ◌&&◌, ◌⊎◌, false, true, ◌∷◌, Bool, ◌==◌, All, Distinct, any, length,
  if◌then◌else◌,
}
use cv_match.Text.{Unicode, Text, text_eq}
use cv_match.QueryPlan.Canonical.{canonicalize_controller_query_terms, terms_of}
use cv_match.QueryPlan.Terms.{
  QueryTermCandidate, is_admitted, is_primary_anchor_candidate, is_title_anchor_candidate,
  is_secondary_role,
}
use cv_match.QueryPlan.Selection.Picks.{one_family}

-- a term of the pool
abbrev pub IsTermOf : List QueryTermCandidate → QueryTermCandidate → Type 0
IsTermOf pool item = any (λ other. text_eq other.term item.term) pool ≡ true

abbrev pub is_secondary : QueryTermCandidate → Bool
is_secondary item = item.active && (is_admitted item && is_secondary_role item.retrieval_role)

-- An active item that has what the test asks
abbrev pub HasPassed :
    (QueryTermCandidate → Bool) → List QueryTermCandidate → QueryTermCandidate → Type 0
HasPassed p pool item = (p item ≡ true) × IsTermOf pool item

module _ ⦃u : Unicode⦄ where
  -- One active primary anchor of the pool, and active, admitted companions: in round 1 a secondary
  -- title anchor alone, if there is one, and otherwise terms that are no title anchors, of
  -- families of their own, one in round 1 and at most two later.
  pub record IsProposal (pool : List QueryTermCandidate) (round_no : ℕ)
      (anchor : QueryTermCandidate) (companions : List QueryTermCandidate) : Type 0 where
    pub primary : HasPassed (λ item. item.active && is_primary_anchor_candidate item) pool anchor
    pub some_companion : 1 ≤ length companions
    pub few : length companions ≤ (if round_no == 1 then 1 else 2)
    pub kinds :
        ((round_no ≡ 1)
          × (any is_secondary pool ≡ true)
          × All (HasPassed is_secondary pool) companions)
        ⊎ (((round_no == 1 && any is_secondary pool) ≡ false)
            × All
                (HasPassed
                  (λ item.
                    item.active && (is_admitted item && not (is_title_anchor_candidate item)))
                  pool)
                companions
            × All (λ item. text_eq item.family anchor.family ≡ false) companions
            × Distinct one_family companions)

  -- What is proposed, and that it is what the tests are put to.
  abbrev pub Proposes : List QueryTermCandidate → ℕ → List Text → Type 0
  Proposes pool round_no terms =
      (anchor : QueryTermCandidate) × (companions : List QueryTermCandidate) × IsProposal pool
        round_no anchor companions
      × (canonicalize_controller_query_terms pool (plain_rules round_no)
            (anchor.term ∷ terms_of companions)
          ≡ ok terms)
