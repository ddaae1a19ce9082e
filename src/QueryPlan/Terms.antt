-- ===== src/QueryPlan/Terms.antt =====
-- The terms of the compiled query pool (`QueryTermCandidate` of models.py) and the tests, keys and
-- orders that query_plan.py has on them. The fields `source`, `category` and `evidence`, which no
-- decision here reads, are left out. A priority is set by the query compiler, and is a natural
-- number.
use cv_match.Text.{
  Text, Unicode, casefold, text_ltb, normalize_term, unique_strings, mem_text, text_eq,
}
use cv_match.Common.Sorting.{then_by}
use cv_match.Common.{
  ℕ, Bool, true, ◌&&◌, List, false, ◌||◌, Option, ◌∷◌, none, if◌then◌else◌, [], some,
}

pub data RetrievalRole : Type 0 where
  role_anchor core_skill primary_role_anchor secondary_title_anchor : RetrievalRole
  domain_context framework_tool filter_only_role score_only_role : RetrievalRole

pub data Queryability : Type 0 where
  admitted score_only filter_only blocked : Queryability

pub record QueryTermCandidate : Type 0 where
  pub term : Text
  pub priority : ℕ
  pub first_added_round : ℕ
  pub active : Bool
  pub retrieval_role : RetrievalRole
  pub queryability : Queryability
  pub family : Text

-- `is_primary_anchor_role` and `is_title_anchor_role` of models.py
abbrev pub is_primary_anchor_role : RetrievalRole → Bool
is_primary_anchor_role primary_role_anchor = true
is_primary_anchor_role role_anchor = true
is_primary_anchor_role _ = false

abbrev pub is_role_anchor : RetrievalRole → Bool
is_role_anchor role_anchor = true
is_role_anchor _ = false

abbrev pub is_secondary_role : RetrievalRole → Bool
is_secondary_role secondary_title_anchor = true
is_secondary_role _ = false

abbrev pub is_title_anchor_role : RetrievalRole → Bool
is_title_anchor_role primary_role_anchor = true
is_title_anchor_role secondary_title_anchor = true
is_title_anchor_role role_anchor = true
is_title_anchor_role _ = false

abbrev pub is_admitted_value : Queryability → Bool
is_admitted_value admitted = true
is_admitted_value _ = false

-- `item.queryability == "admitted"`
abbrev pub is_admitted : QueryTermCandidate → Bool
is_admitted item = is_admitted_value item.queryability

-- `_is_primary_anchor_candidate`
abbrev pub is_primary_anchor_candidate : QueryTermCandidate → Bool
is_primary_anchor_candidate item = is_admitted item && is_primary_anchor_role item.retrieval_role

-- `_is_title_anchor_candidate`, which `_is_anchor_candidate` calls
abbrev pub is_title_anchor_candidate : QueryTermCandidate → Bool
is_title_anchor_candidate item =
    is_admitted item
    && (is_primary_anchor_role item.retrieval_role || is_secondary_role item.retrieval_role)

module _ ⦃u : Unicode⦄ where
  -- `normalize_term(term).casefold()`
  abbrev pub term_key : Text → Text
  term_key term = casefold (normalize_term term)

  -- A look-up in `_query_term_index`: of two items with one key the later one is the dictionary's.
  unfoldable pub lookup_term : List QueryTermCandidate → Text → Option QueryTermCandidate
  lookup_term [] key = none
  lookup_term (item ∷ pool) key = elim (lookup_term pool key) [
    | some later ↦ some later
    | none ↦ if text_eq (term_key item.term) key then some item else none
  ]

  -- `_term_sort_key`
  abbrev pub term_before : QueryTermCandidate → QueryTermCandidate → Bool
  term_before x y = then_by x.priority y.priority (
      then_by x.first_added_round y.first_added_round
        (text_ltb (casefold x.term) (casefold y.term)))

  -- `_signal_rank`
  abbrev pub signal_rank : RetrievalRole → ℕ
  signal_rank core_skill = 0
  signal_rank framework_tool = 1
  signal_rank domain_context = 2
  signal_rank _ = 3

  -- `_non_anchor_sort_key`
  abbrev pub non_anchor_before : QueryTermCandidate → QueryTermCandidate → Bool
  non_anchor_before x y =
      then_by (signal_rank x.retrieval_role) (signal_rank y.retrieval_role) (term_before x y)

  -- `_duplicate_families`: the loop, and what it returns
  unfoldable pub duplicates_from : List Text → List QueryTermCandidate → List Text
  duplicates_from seen [] = []
  duplicates_from seen (item ∷ items) =
      let again = item.family ∷ duplicates_from seen items in
      let first = duplicates_from (item.family ∷ seen) items in
      if mem_text item.family seen then again else first

  unfoldable pub duplicate_families : List QueryTermCandidate → List Text
  duplicate_families candidates = unique_strings (duplicates_from [] candidates)
