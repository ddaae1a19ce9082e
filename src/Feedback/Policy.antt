-- ===== src/Feedback/Policy.antt =====
-- The gate on the expressions of the candidate feedback: `build_prf_policy_decision` of
-- candidate_feedback/policy.py. A reason is a text; those that the policy writes are constants. Of
-- the input the fields are left out that only the record of the decision copies.
mod Safety
mod Tests
use cv_match.Common.Floats.{Floats}
use cv_match.Common.{
  ℕ, if◌then◌else◌, Bool, List, ◌∷◌, true, Option, ◌&&◌, ltb, map, Result, [], false, not, err,
  ◌++◌, some, find, ok, none,
}
use cv_match.Text.{Text, Unicode, text_eq, unique_strings, mem_text}
use cv_match.QueryPlan.Canonical.{is_empty_list}

-- "shadow_only_responsibility_phrase"
abbrev pub reason_responsibility : Text
reason_responsibility =
    115 ∷ 104 ∷ 97 ∷ 100 ∷ 111 ∷ 119 ∷ 95 ∷ 111 ∷ 110 ∷ 108 ∷ 121 ∷ 95 ∷ 114 ∷ 101 ∷ 115 ∷ 112 ∷ 111
    ∷ 110 ∷ 115 ∷ 105 ∷ 98 ∷ 105 ∷ 108 ∷ 105 ∷ 116 ∷ 121 ∷ 95 ∷ 112 ∷ 104 ∷ 114 ∷ 97 ∷ 115 ∷ 101
    ∷ []

-- "company_entity_rejected"
abbrev pub reason_company : Text
reason_company =
    99 ∷ 111 ∷ 109 ∷ 112 ∷ 97 ∷ 110 ∷ 121 ∷ 95 ∷ 101 ∷ 110 ∷ 116 ∷ 105 ∷ 116 ∷ 121 ∷ 95 ∷ 114 ∷ 101
    ∷ 106 ∷ 101 ∷ 99 ∷ 116 ∷ 101 ∷ 100 ∷ []

-- "derived_summary_only_grounding"
abbrev pub reason_summary : Text
reason_summary =
    100 ∷ 101 ∷ 114 ∷ 105 ∷ 118 ∷ 101 ∷ 100 ∷ 95 ∷ 115 ∷ 117 ∷ 109 ∷ 109 ∷ 97 ∷ 114 ∷ 121 ∷ 95 ∷ 111
    ∷ 110 ∷ 108 ∷ 121 ∷ 95 ∷ 103 ∷ 114 ∷ 111 ∷ 117 ∷ 110 ∷ 100 ∷ 105 ∷ 110 ∷ 103 ∷ []

-- "existing_or_tried_family"
abbrev pub reason_tried : Text
reason_tried =
    101 ∷ 120 ∷ 105 ∷ 115 ∷ 116 ∷ 105 ∷ 110 ∷ 103 ∷ 95 ∷ 111 ∷ 114 ∷ 95 ∷ 116 ∷ 114 ∷ 105 ∷ 101
    ∷ 100 ∷ 95 ∷ 102 ∷ 97 ∷ 109 ∷ 105 ∷ 108 ∷ 121 ∷ []

-- "insufficient_seed_support"
abbrev pub reason_support : Text
reason_support =
    105 ∷ 110 ∷ 115 ∷ 117 ∷ 102 ∷ 102 ∷ 105 ∷ 99 ∷ 105 ∷ 101 ∷ 110 ∷ 116 ∷ 95 ∷ 115 ∷ 101 ∷ 101
    ∷ 100 ∷ 95 ∷ 115 ∷ 117 ∷ 112 ∷ 112 ∷ 111 ∷ 114 ∷ 116 ∷ []

-- "negative_support_too_high"
abbrev pub reason_negative : Text
reason_negative =
    110 ∷ 101 ∷ 103 ∷ 97 ∷ 116 ∷ 105 ∷ 118 ∷ 101 ∷ 95 ∷ 115 ∷ 117 ∷ 112 ∷ 112 ∷ 111 ∷ 114 ∷ 116 ∷ 95
    ∷ 116 ∷ 111 ∷ 111 ∷ 95 ∷ 104 ∷ 105 ∷ 103 ∷ 104 ∷ []

-- "company_entity"
abbrev pub reason_company_entity : Text
reason_company_entity =
    99 ∷ 111 ∷ 109 ∷ 112 ∷ 97 ∷ 110 ∷ 121 ∷ 95 ∷ 101 ∷ 110 ∷ 116 ∷ 105 ∷ 116 ∷ 121 ∷ []

-- "tried_term_family"
abbrev pub reason_tried_term_family : Text
reason_tried_term_family =
    116 ∷ 114 ∷ 105 ∷ 101 ∷ 100 ∷ 95 ∷ 116 ∷ 101 ∷ 114 ∷ 109 ∷ 95 ∷ 102 ∷ 97 ∷ 109 ∷ 105 ∷ 108 ∷ 121
    ∷ []

pub data TermType : Type 0 where
  skill tool_or_framework product_or_platform technical_phrase : TermType
  responsibility_phrase company_entity location degree : TermType
  compensation administrative generic unknown_high_risk unknown : TermType

abbrev pub is_responsibility : TermType → Bool
is_responsibility responsibility_phrase = true
is_responsibility _ = false

abbrev pub is_company : TermType → Bool
is_company company_entity = true
is_company _ = false

-- "strengths"
abbrev pub strengths : Text
strengths = 115 ∷ 116 ∷ 114 ∷ 101 ∷ 110 ∷ 103 ∷ 116 ∷ 104 ∷ 115 ∷ []

-- The hits by field are a dictionary, whose keys are all different.
abbrev pub has_strengths_only_grounding : List (Text × ℕ) → Bool
has_strengths_only_grounding ((field, count) ∷ []) = text_eq field strengths && ltb 0 count
has_strengths_only_grounding _ = false

abbrev pub rename_reason : Text → Text
rename_reason reason =
    if text_eq reason reason_company_entity
    then reason_company
    else if text_eq reason reason_tried_term_family
    then reason_tried
    else reason

-- `if test and reason not in reasons: reasons.append(reason)`
abbrev pub add_reason : Bool → Text → List Text → List Text
add_reason test reason reasons =
    if test && not (mem_text reason reasons) then reasons ++ reason ∷ [] else reasons

pub data GateRejection : Type 0 where
  insufficient_high_quality_seeds no_safe_prf_expression : GateRejection

module _ (f : Floats) where
  pub record Expression : Type 0 where
    pub term_family_id : Text
    pub candidate_term_type : TermType
    pub field_hits : List (Text × ℕ)
    pub positive_seed_support_count : ℕ
    pub not_fit_support_rate : f.Float
    pub reject_reasons : List Text

  pub record GateInput : Type 0 where
    pub seed_count : ℕ
    pub candidate_expressions : List Expression
    pub tried_term_family_ids : List Text
    pub min_seed_count : ℕ
    pub max_negative_support_rate : f.Float

  module _ ⦃u : Unicode⦄ where
    abbrev pub normalize_reject_reasons : List Text → List Text
    normalize_reject_reasons reasons = unique_strings (map rename_reason reasons)

    -- the reasons of an expression, in the order of the tests
    abbrev pub reasons_for : GateInput → Expression → List Text
    reasons_for input e =
        add_reason (f.float_le input.max_negative_support_rate e.not_fit_support_rate)
          reason_negative
          (add_reason (ltb e.positive_seed_support_count input.min_seed_count) reason_support (
            add_reason (mem_text e.term_family_id (unique_strings input.tried_term_family_ids))
              reason_tried
              (add_reason (has_strengths_only_grounding e.field_hits) reason_summary (
                add_reason (is_company e.candidate_term_type) reason_company (
                  add_reason (is_responsibility e.candidate_term_type) reason_responsibility
                    (normalize_reject_reasons e.reject_reasons))))))

    unfoldable pub evaluate_expression : GateInput → Expression → Expression
    evaluate_expression input e = record {
      term_family_id = e.term_family_id;
      candidate_term_type = e.candidate_term_type;
      field_hits = e.field_hits;
      positive_seed_support_count = e.positive_seed_support_count;
      not_fit_support_rate = e.not_fit_support_rate;
      reject_reasons = unique_strings (reasons_for input e);
    }

    unfoldable pub evaluate_candidate_expressions : GateInput → List Expression
    evaluate_candidate_expressions input =
        map (evaluate_expression input) input.candidate_expressions

    abbrev pub is_safe : Expression → Bool
    is_safe e = is_empty_list e.reject_reasons

    abbrev pub accept_first : Option Expression → Result GateRejection Expression
    accept_first none = err no_safe_prf_expression
    accept_first (some e) = ok e

    -- the accepted expression, or why there is none
    unfoldable pub build_prf_policy_decision : GateInput → Result GateRejection Expression
    build_prf_policy_decision input =
        if ltb input.seed_count input.min_seed_count
        then err insufficient_high_quality_seeds
        else accept_first (find is_safe (evaluate_candidate_expressions input))
