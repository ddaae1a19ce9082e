-- ===== src/Rescue/Broaden.antt =====
-- The round that broadens the search, of runtime/rescue_execution_runtime.py: what it sends, the
-- rationale that it is recorded with, and the pool that it leaves. The filter plan and the texts
-- for the reader are left out.
mod Settled
mod Tests
use cv_match.Rescue.Guidance.{runtime_broaden, SentQueryRecord, family_before, sent_families}
use cv_match.Common.{
  ℕ, if◌then◌else◌, ◌>>=◌, ◌>>◌, Bool, List, ◌∷◌, ◌++◌, true, Option, Result, map, [], none, err,
  ◌&&◌, ok, false, some, not, select,
}
use cv_match.Text.{Text, Unicode, text_eq, mem_text}
use cv_match.QueryPlan.Terms.{QueryTermCandidate, is_admitted, term_key, is_title_anchor_role}
use cv_match.Common.Sorting.{then_by, sort_by}
use cv_match.QueryPlan.Selection.{active_anchors}

pub data BroadenError : Type 0 where
  no_active_anchor : BroadenError

pub record BroadenDecision : Type 0 where
  pub decision_rationale : Text
  pub proposed_query_terms : List Text
  pub query_term_pool : List QueryTermCandidate

-- ": ", "; ", "anchor-only search" and "reserve admitted family "
abbrev colon : Text
colon = 58 ∷ 32 ∷ []

abbrev semicolon : Text
semicolon = 59 ∷ 32 ∷ []

abbrev anchor_only_search : Text
anchor_only_search =
    97 ∷ 110 ∷ 99 ∷ 104 ∷ 111 ∷ 114 ∷ 45 ∷ 111 ∷ 110 ∷ 108 ∷ 121 ∷ 32 ∷ 115 ∷ 101 ∷ 97 ∷ 114 ∷ 99
    ∷ 104 ∷ []

abbrev pub reserve_family : Text
reserve_family =
    114 ∷ 101 ∷ 115 ∷ 101 ∷ 114 ∷ 118 ∷ 101 ∷ 32 ∷ 97 ∷ 100 ∷ 109 ∷ 105 ∷ 116 ∷ 116 ∷ 101 ∷ 100 ∷ 32
    ∷ 102 ∷ 97 ∷ 109 ∷ 105 ∷ 108 ∷ 121 ∷ 32 ∷ []

-- "Runtime broaden: {detail}; {reason}"
abbrev pub rationale_of : Text → Text → Text
rationale_of detail reason = runtime_broaden ++ (colon ++ (detail ++ (semicolon ++ reason)))

abbrev pub with_active : QueryTermCandidate → QueryTermCandidate
with_active item = record {
  term = item.term;
  priority = item.priority;
  first_added_round = item.first_added_round;
  active = true;
  retrieval_role = item.retrieval_role;
  queryability = item.queryability;
  family = item.family;
}

-- the first part of the key of `min`
abbrev pub activity_rank : Bool → ℕ
activity_rank true = 0
activity_rank false = 1

abbrev pub first_item : List QueryTermCandidate → Option QueryTermCandidate
first_item [] = none
first_item (item ∷ items) = some item

abbrev pub first_anchor : List QueryTermCandidate → Result BroadenError QueryTermCandidate
first_anchor [] = err no_active_anchor
first_anchor (anchor ∷ anchors) = ok anchor

module _ ⦃u : Unicode⦄ where
  unfoldable pub activate_query_term : List QueryTermCandidate → Text → List QueryTermCandidate
  activate_query_term pool term =
      map (λ item. if text_eq (term_key item.term) (term_key term) then with_active item else item)
        pool

  abbrev pub active_admitted_anchor :
      List QueryTermCandidate → Result BroadenError QueryTermCandidate
  active_admitted_anchor pool = first_anchor (active_anchors pool)

  abbrev pub is_reserve : List Text → QueryTermCandidate → Bool
  is_reserve tried item =
      is_admitted item
      && (not (is_title_anchor_role item.retrieval_role) && not (mem_text item.family tried))

  abbrev pub reserve_before : QueryTermCandidate → QueryTermCandidate → Bool
  reserve_before x y = then_by (activity_rank x.active) (activity_rank y.active) (family_before x y)

  -- `min` of the candidates is the first of them in the order of the key.
  unfoldable pub untried_reserve :
      List QueryTermCandidate → List SentQueryRecord → Option QueryTermCandidate
  untried_reserve pool history =
      first_item (sort_by reserve_before (select (is_reserve (sent_families pool history)) pool))

  abbrev pub broaden_with :
      List QueryTermCandidate
      → Text
      → QueryTermCandidate
      → Option QueryTermCandidate
      → BroadenDecision
  broaden_with pool reason anchor none = record {
    decision_rationale = rationale_of anchor_only_search reason;
    proposed_query_terms = anchor.term ∷ [];
    query_term_pool = pool;
  }
  broaden_with pool reason anchor (some reserve) = record {
    decision_rationale = rationale_of (reserve_family ++ reserve.family) reason;
    proposed_query_terms = anchor.term ∷ reserve.term ∷ [];
    query_term_pool = activate_query_term pool reserve.term;
  }

  unfoldable pub force_broaden_decision :
      List QueryTermCandidate → List SentQueryRecord → Text → Result BroadenError BroadenDecision
  force_broaden_decision pool history reason = do
    anchor ← active_admitted_anchor pool
    ok (broaden_with pool reason anchor (untried_reserve pool history))

  unfoldable pub force_anchor_only_decision :
      List QueryTermCandidate → Text → Result BroadenError BroadenDecision
  force_anchor_only_decision pool reason = do
    anchor ← active_admitted_anchor pool
    ok (broaden_with pool reason anchor none)
