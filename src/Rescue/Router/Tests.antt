-- ===== src/Rescue/Router/Tests.antt =====
-- A rescue after feedback was tried.
use cv_match.Rescue.Guidance.{StopGuidance, weak, low_quality_exhausted}
use cv_match.Common.{true, [], false, ◌≡◌, refl}
use cv_match.Rescue.Router.{RescueInputs, choose_rescue_lane, anchor_only}

abbrev exhausted : StopGuidance
exhausted = record {
  can_stop = true;
  tried_families = [];
  untried_admitted_families = [];
  productive_round_count = 1;
  zero_gain_round_count = 2;
  top_pool_strength = weak;
  fit_count = 1;
  strong_fit_count = 0;
  high_risk_fit_count = 0;
  quality_gate_status = low_quality_exhausted;
  broadening_attempted = true;
}

abbrev after_feedback : RescueInputs
after_feedback = record {
  stop_guidance = exhausted;
  has_untried_reserve_family = false;
  has_feedback_seed_resumes = true;
  candidate_feedback_enabled = true;
  candidate_feedback_attempted = true;
  anchor_only_broaden_attempted = false;
}

anchor_next : (choose_rescue_lane after_feedback).selected_lane ≡ anchor_only
unfolding choose_rescue_lane
anchor_next = refl
