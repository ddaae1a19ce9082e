-- ===== src/Liepin/DetailPlan/Tests.antt =====
-- Three candidates with a budget of three, of which two units are used.
use cv_match.Liepin.DetailPlan.{
  build_detail_open_plan, PlanLimits, DetailOpenGrant, validate_detail_open_grant, CardCandidate,
}
use cv_match.Common.Floats.{Floats}
use cv_match.Common.{
  ℕ, String, ◌-◌, leb, Option, List, ltb, ◌∷◌, ◌≡◌, some, [], none, refl, ◌↔◌, ◌<◌,
}
use cv_match.Liepin.DetailPlan.Budgets.{openings, AreDecided, plan-openings, grant-valid}

abbrev whole : Floats
whole = record { Float = ℕ; float_le = leb; float_lt = ltb; float_sub = λ a b. a - b }

abbrev card : String → Option String → ℕ → CardCandidate whole
card id provider_id score = record {
  candidate_id = id;
  stable_provider_id = provider_id;
  card_value_score = score;
}

abbrev day : PlanLimits whole
day = record {
  already_opened_provider_ids = "p1" ∷ [];
  daily_detail_budget = 3;
  min_card_value_score = 10;
}

abbrev cards : List (CardCandidate whole)
cards = card "a" (some "p1") 50 ∷ card "b" none 50 ∷ card "c" (some "p2") 50 ∷ []

one_left : openings (build_detail_open_plan whole day 2 cards) ≡ 1
unfolding build_detail_open_plan
one_left = refl

plan-openings_example :
    (openings (build_detail_open_plan whole day 2 cards) ≡ 1)
    × AreDecided whole day cards (build_detail_open_plan whole day 2 cards)
plan-openings_example = plan-openings whole day 2 cards

abbrev granted : DetailOpenGrant
granted = record { candidate_ref = "a"; source_run_id = "run"; expires_at = 10 }

grant-valid_example : (validate_detail_open_grant (some granted) "a" "run" 5 ≡ none) ↔ (
    (g : DetailOpenGrant) × (some granted ≡ some g)
    × (5 < g.expires_at)
    × (g.candidate_ref ≡ "a")
    × (g.source_run_id ≡ "run"))
grant-valid_example = grant-valid (some granted) "a" "run" 5
