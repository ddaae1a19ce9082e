-- ===== src/Rescue/Guidance.antt =====
-- The stop guidance of `_build_stop_guidance` in runtime/controller_context.py, and the budget that
-- `build_controller_context` reads. Scores are natural numbers. The texts of the reasons are left
-- out: a list of `continue_reasons`, which has one member at most, is a Boolean value here.
mod Families
pub mod Stops
mod Tests
use cv_match.Common.{
  ℕ, ◌-◌, ◌*◌, ◌/◌, if◌then◌else◌, List, Bool, ◌+◌, ◌∷◌, Option, true, false, ◌&&◌, select, ltb, [],
  ◌==◌, some, length, leb, ◌||◌, map, ◌++◌, not, any, none,
}
use cv_match.Text.{Text, Unicode, unique_strings, mem_text, text_ltb}
use cv_match.QueryPlan.Terms.{
  QueryTermCandidate, lookup_term, is_admitted, term_key, is_title_anchor_role, is_role_anchor,
}
use cv_match.Common.Sorting.{then_by, sort_by}
use cv_match.QueryPlan.Canonical.{is_empty_list}

pub data FitBucket : Type 0 where
  fit not_fit : FitBucket

pub record ScoredCandidate : Type 0 where
  pub fit_bucket : FitBucket
  pub overall_score : ℕ
  pub must_have_match_score : ℕ
  pub risk_score : ℕ

pub data TopPoolStrength : Type 0 where
  empty weak usable strong : TopPoolStrength

pub data QualityGateStatus : Type 0 where
  pass budget_stop_allowed continue_low_quality : QualityGateStatus
  broaden_required low_quality_exhausted : QualityGateStatus

pub record SentQueryRecord : Type 0 where
  pub query_terms : List Text
  pub rationale : Text

-- A round of the history: the number of new resumes, where the round has an observation.
pub record RunState : Type 0 where
  pub query_term_pool : List QueryTermCandidate
  pub sent_query_history : List SentQueryRecord
  pub unique_new_counts : List (Option ℕ)

pub record StopGuidance : Type 0 where
  pub can_stop : Bool
  pub tried_families : List Text
  pub untried_admitted_families : List Text
  pub productive_round_count : ℕ
  pub zero_gain_round_count : ℕ
  pub top_pool_strength : TopPoolStrength
  pub fit_count : ℕ
  pub strong_fit_count : ℕ
  pub high_risk_fit_count : ℕ
  pub quality_gate_status : QualityGateStatus
  pub broadening_attempted : Bool

abbrev pub is_fit_value : FitBucket → Bool
is_fit_value fit = true
is_fit_value not_fit = false

abbrev pub is_fit : ScoredCandidate → Bool
is_fit item = is_fit_value item.fit_bucket

abbrev pub is_strong_fit : ScoredCandidate → Bool
is_strong_fit item =
    is_fit item
    && (leb 80 item.overall_score && (leb 70 item.must_have_match_score && leb item.risk_score 30))

abbrev pub strong_fit_candidates : List ScoredCandidate → List ScoredCandidate
strong_fit_candidates top_pool = select is_strong_fit top_pool

abbrev pub top_pool_strength_of : List ScoredCandidate → TopPoolStrength
top_pool_strength_of [] = empty
top_pool_strength_of (item ∷ items) =
    let top_pool = item ∷ items in
    if ltb (length top_pool) 5 || not (any is_fit top_pool)
    then weak
    else if leb 10 (length top_pool) && leb 5 (length (strong_fit_candidates top_pool))
    then strong
    else usable

-- `ceil(max_rounds * 0.8)`
abbrev pub budget_stop_round : ℕ → ℕ
budget_stop_round max_rounds = (4 * max_rounds + 4) / 5

-- "Runtime broaden"
abbrev pub runtime_broaden : Text
runtime_broaden =
    82 ∷ 117 ∷ 110 ∷ 116 ∷ 105 ∷ 109 ∷ 101 ∷ 32 ∷ 98 ∷ 114 ∷ 111 ∷ 97 ∷ 100 ∷ 101 ∷ 110 ∷ []

abbrev pub starts_with : Text → Text → Bool
starts_with [] s = true
starts_with (c ∷ prefix) [] = false
starts_with (c ∷ prefix) (d ∷ s) = c == d && starts_with prefix s

abbrev pub is_productive : Option ℕ → Bool
is_productive none = false
is_productive (some count) = ltb 0 count

abbrev pub is_zero_gain : Option ℕ → Bool
is_zero_gain none = false
is_zero_gain (some count) = count == 0

module _ ⦃u : Unicode⦄ where
  abbrev pub found_term :
      Option QueryTermCandidate → List QueryTermCandidate → List QueryTermCandidate
  found_term none rest = rest
  found_term (some candidate) rest = candidate ∷ rest

  -- `term_index.get(_term_key(term))` for the terms of a record, where it is not None
  unfoldable pub known_terms : List QueryTermCandidate → List Text → List QueryTermCandidate
  known_terms pool [] = []
  known_terms pool (term ∷ terms) =
      found_term (lookup_term pool (term_key term)) (known_terms pool terms)

  abbrev pub families_of : List QueryTermCandidate → List Text
  families_of items = map (λ item. item.family) items

  unfoldable pub sent_families : List QueryTermCandidate → List SentQueryRecord → List Text
  sent_families pool [] = []
  sent_families pool (record_ ∷ records) =
      families_of (known_terms pool record_.query_terms) ++ sent_families pool records

  unfoldable pub tried_families_of : List QueryTermCandidate → List SentQueryRecord → List Text
  tried_families_of pool history = unique_strings (sent_families pool history)

  abbrev pub is_untried : List Text → QueryTermCandidate → Bool
  is_untried tried item =
      item.active
      && (is_admitted item
          && (not (is_title_anchor_role item.retrieval_role) && not (mem_text item.family tried)))

  -- the values of `family_candidates`, where `seen` holds the keys
  unfoldable pub family_candidates :
      List Text → List Text → List QueryTermCandidate → List QueryTermCandidate
  family_candidates tried seen [] = []
  family_candidates tried seen (item ∷ items) =
      let skip = family_candidates tried seen items in
      let keep = item ∷ family_candidates tried (item.family ∷ seen) items in
      if is_untried tried item && not (mem_text item.family seen) then keep else skip

  abbrev pub family_before : QueryTermCandidate → QueryTermCandidate → Bool
  family_before x y =
      then_by x.priority y.priority
        (then_by x.first_added_round y.first_added_round (text_ltb x.family y.family))

  unfoldable pub untried_admitted_families_of : List QueryTermCandidate → List Text → List Text
  untried_admitted_families_of pool tried =
      families_of (sort_by family_before (family_candidates tried [] pool))

  abbrev pub is_lone_anchor : List QueryTermCandidate → Bool
  is_lone_anchor (candidate ∷ []) = is_admitted candidate && is_role_anchor candidate.retrieval_role
  is_lone_anchor _ = false

  unfoldable pub broadening_attempted_in : List QueryTermCandidate → List SentQueryRecord → Bool
  broadening_attempted_in pool history =
      any
        (λ r.
          starts_with runtime_broaden r.rationale
          || is_lone_anchor (known_terms pool r.query_terms))
        history

-- What the chain of tests decides: whether there is a reason to continue, and the status.
pub record Verdict : Type 0 where
  pub continues : Bool
  pub status : QualityGateStatus

abbrev go_on : QualityGateStatus → Verdict
go_on status = record { continues = true; status = status }

abbrev stop : QualityGateStatus → Verdict
stop status = record { continues = false; status = status }

-- the tests on the families that a weak pool and a usable pool share
abbrev pub judge_coverage : Bool → Bool → Verdict
judge_coverage untried broadened =
    if untried
    then go_on continue_low_quality
    else if broadened
    then stop low_quality_exhausted
    else go_on broaden_required

abbrev pub judge_strong_enough : TopPoolStrength → ℕ → Bool → Verdict
judge_strong_enough strong productive untried = stop pass
judge_strong_enough strength productive untried =
    if ltb productive 2 && untried then go_on continue_low_quality else stop pass

abbrev pub judge_quality : TopPoolStrength → ℕ → ℕ → Bool → Bool → Verdict
judge_quality empty strong_fits productive untried broadened = judge_coverage untried broadened
judge_quality weak strong_fits productive untried broadened = judge_coverage untried broadened
judge_quality usable strong_fits productive untried broadened =
    if ltb strong_fits 3
    then judge_coverage untried broadened
    else judge_strong_enough usable productive untried
judge_quality strong strong_fits productive untried broadened =
    judge_strong_enough strong productive untried

unfoldable pub judge : ℕ → ℕ → ℕ → ℕ → TopPoolStrength → ℕ → ℕ → Bool → Bool → Verdict
judge round_no completed min_rounds max_rounds strength strong_fits productive untried broadened =
    if ltb completed min_rounds
    then go_on pass
    else if leb (budget_stop_round max_rounds) round_no
    then stop budget_stop_allowed
    else judge_quality strength strong_fits productive untried broadened

unfoldable pub build_stop_guidance :
    ⦃u : Unicode⦄ → RunState → List ScoredCandidate → ℕ → ℕ → ℕ → ℕ → StopGuidance
build_stop_guidance state top_pool round_no completed min_rounds max_rounds =
    let strength = top_pool_strength_of top_pool in
    let fit_candidates = select is_fit top_pool in
    let strong_fit_count = length (strong_fit_candidates top_pool) in
    let tried = tried_families_of state.query_term_pool state.sent_query_history in
    let untried = untried_admitted_families_of state.query_term_pool tried in
    let broadened = broadening_attempted_in state.query_term_pool state.sent_query_history in
    let productive = length (select is_productive state.unique_new_counts) in
    let verdict =
      judge round_no completed min_rounds max_rounds strength strong_fit_count productive
        (not (is_empty_list untried)) broadened in
    record {
      can_stop = not verdict.continues;
      tried_families = tried;
      untried_admitted_families = untried;
      productive_round_count = productive;
      zero_gain_round_count = length (select is_zero_gain state.unique_new_counts);
      top_pool_strength = strength;
      fit_count = length fit_candidates;
      strong_fit_count = strong_fit_count;
      high_risk_fit_count = length (select (λ item. leb 70 item.risk_score) fit_candidates);
      quality_gate_status = verdict.status;
      broadening_attempted = broadened;
    }

-- The budget of a round, as `build_controller_context` writes it, and its guidance
pub record ControllerContext : Type 0 where
  pub retrieval_rounds_completed : ℕ
  pub rounds_remaining_after_current : ℕ
  pub near_budget_limit : Bool
  pub is_final_allowed_round : Bool
  pub stop_guidance : StopGuidance

unfoldable pub build_controller_context :
    ⦃u : Unicode⦄ → RunState → List ScoredCandidate → ℕ → ℕ → ℕ → ControllerContext
build_controller_context state top_pool round_no min_rounds max_rounds =
    let completed = length state.unique_new_counts in
    record {
      retrieval_rounds_completed = completed;
      rounds_remaining_after_current = max_rounds - round_no;
      near_budget_limit = leb (budget_stop_round max_rounds) round_no;
      is_final_allowed_round = leb max_rounds round_no;
      stop_guidance = build_stop_guidance state top_pool round_no completed min_rounds max_rounds;
    }
