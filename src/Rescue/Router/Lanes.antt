-- ===== src/Rescue/Router/Lanes.antt =====
-- The router takes the first lane that is open, and the reason that it gives for a lane is what closes it.
use cv_match.Common.{
  List, Bool, ◌≡◌, ◌&&◌, not, ◌∷◌, false, true, find, [], some, All, take, length,
}
use cv_match.Rescue.Router.{
  RescueInputs, RescueLane, SkipReason, reserve_broaden, candidate_feedback, anchor_only,
  no_untried_reserve_family, allow_stop, continue_controller, disabled, already_attempted,
  no_feedback_seed_resumes, RescueDecision,
}
use cv_match.Rescue.Guidance.{StopGuidance}

-- A lane that can be taken
abbrev pub is_open : RescueInputs → RescueLane → Bool
is_open inputs reserve_broaden = inputs.has_untried_reserve_family
is_open inputs candidate_feedback =
    inputs.candidate_feedback_enabled
    && (not inputs.candidate_feedback_attempted && inputs.has_feedback_seed_resumes)
is_open inputs anchor_only = not inputs.anchor_only_broaden_attempted
is_open inputs continue_controller = false
is_open inputs allow_stop = true

-- Whether the reason is what closes the lane. A lane has reasons of its own, and of these the one
-- counts that comes first.
abbrev pub is_true_reason : RescueInputs → RescueLane → SkipReason → Bool
is_true_reason inputs reserve_broaden no_untried_reserve_family =
    not inputs.has_untried_reserve_family
is_true_reason inputs candidate_feedback disabled = not inputs.candidate_feedback_enabled
is_true_reason inputs candidate_feedback already_attempted =
    inputs.candidate_feedback_enabled && inputs.candidate_feedback_attempted
is_true_reason inputs candidate_feedback no_feedback_seed_resumes =
    inputs.candidate_feedback_enabled
    && (not inputs.candidate_feedback_attempted && not inputs.has_feedback_seed_resumes)
is_true_reason inputs anchor_only already_attempted = inputs.anchor_only_broaden_attempted
is_true_reason inputs lane reason = false

abbrev pub rescue_lanes : List RescueLane
rescue_lanes = reserve_broaden ∷ candidate_feedback ∷ anchor_only ∷ allow_stop ∷ []

abbrev pub passed_lanes : List (RescueLane × SkipReason) → List RescueLane
passed_lanes [] = []
passed_lanes ((lane, reason) ∷ rest) = lane ∷ passed_lanes rest

abbrev pub IsSkipped : RescueInputs → RescueLane × SkipReason → Type 0
IsSkipped inputs (lane, reason) =
    (is_open inputs lane ≡ false) × (is_true_reason inputs lane reason ≡ true)

abbrev IsFirst : RescueInputs → RescueDecision → Type 0
IsFirst inputs decision =
    (find (is_open inputs) rescue_lanes ≡ some decision.selected_lane)
    × All (IsSkipped inputs) decision.skipped_lanes
    × (passed_lanes decision.skipped_lanes ≡ take (length decision.skipped_lanes) rescue_lanes)

abbrev inputs_of : StopGuidance → Bool → Bool → Bool → Bool → Bool → RescueInputs
inputs_of guidance untried enabled attempted seeds anchored = record {
  stop_guidance = guidance;
  has_untried_reserve_family = untried;
  has_feedback_seed_resumes = seeds;
  candidate_feedback_enabled = enabled;
  candidate_feedback_attempted = attempted;
  anchor_only_broaden_attempted = anchored;
}
