-- ===== src/Feedback/Policy/Tests.antt =====
-- A company is passed over, and a skill accepted.
use cv_match.Feedback.Policy.{
  build_prf_policy_decision, TermType, GateInput, evaluate_candidate_expressions, Expression,
  company_entity, evaluate_expression, skill, strengths,
}
use cv_match.Common.Floats.{Floats}
use cv_match.Common.{ℕ, ◌-◌, leb, ◌≤◌, ltb, ◌∷◌, [], ◌≡◌, ok, refl}
use cv_match.Text.Ascii.{ascii}
use cv_match.Text.{unique_strings, unique_from, strip, lstrip, rstrip, is_space, casefold}
use cv_match.Feedback.Policy.Safety.{IsFirstSafe, accepted-IsSafe}

abbrev percent : Floats
percent = record { Float = ℕ; float_le = leb; float_lt = ltb; float_sub = λ a b. a - b }

abbrev expression : ℕ → TermType → Expression percent
expression family type = record {
  term_family_id = family ∷ [];
  candidate_term_type = type;
  field_hits = (strengths, 2) ∷ (97 ∷ [], 1) ∷ [];
  positive_seed_support_count = 2;
  not_fit_support_rate = 10;
  reject_reasons = [];
}

abbrev input : GateInput percent
input = record {
  seed_count = 3;
  candidate_expressions = expression 97 company_entity ∷ expression 98 skill ∷ [];
  tried_term_family_ids = (99 ∷ []) ∷ [];
  min_seed_count = 2;
  max_negative_support_rate = 40;
}

accepted : build_prf_policy_decision percent input ≡ ok (expression 98 skill)
unfolding build_prf_policy_decision evaluate_candidate_expressions evaluate_expression
    unique_strings unique_from strip lstrip rstrip is_space casefold ascii
accepted = refl

accepted-IsSafe_example : (2 ≤ 3) × IsFirstSafe percent input (expression 98 skill)
accepted-IsSafe_example = accepted-IsSafe percent input (expression 98 skill) accepted
