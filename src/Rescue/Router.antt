-- ===== src/Rescue/Router.antt =====
-- `choose_rescue_lane` of runtime/rescue_router.py: the lane that rescues a round which is of too
-- low quality, and the lanes that it passed over with their reasons.
mod Lanes
mod Tests
use cv_match.Common.{if◌then◌else◌, Bool, List, not, [], true, ◌&&◌, false, ◌∷◌}
use cv_match.Rescue.Guidance.{
  StopGuidance, QualityGateStatus, broaden_required, low_quality_exhausted,
}

pub data RescueLane : Type 0 where
  reserve_broaden candidate_feedback anchor_only continue_controller allow_stop : RescueLane

pub data SkipReason : Type 0 where
  no_untried_reserve_family disabled already_attempted no_feedback_seed_resumes : SkipReason

pub record RescueInputs : Type 0 where
  pub stop_guidance : StopGuidance
  pub has_untried_reserve_family : Bool
  pub has_feedback_seed_resumes : Bool
  pub candidate_feedback_enabled : Bool
  pub candidate_feedback_attempted : Bool
  pub anchor_only_broaden_attempted : Bool

pub record RescueDecision : Type 0 where
  pub selected_lane : RescueLane
  pub skipped_lanes : List (RescueLane × SkipReason)

abbrev pub is_rescue_status : QualityGateStatus → Bool
is_rescue_status broaden_required = true
is_rescue_status low_quality_exhausted = true
is_rescue_status _ = false

abbrev decide : RescueLane → List (RescueLane × SkipReason) → RescueDecision
decide lane skipped = record { selected_lane = lane; skipped_lanes = skipped }

abbrev pub feedback_reason : RescueInputs → SkipReason
feedback_reason inputs =
    if not inputs.candidate_feedback_enabled
    then disabled
    else if inputs.candidate_feedback_attempted
    then already_attempted
    else no_feedback_seed_resumes

abbrev pub rescue : RescueInputs → RescueDecision
rescue inputs =
    let first : RescueLane × SkipReason = (reserve_broaden, no_untried_reserve_family) in
    let second : RescueLane × SkipReason = (candidate_feedback, feedback_reason inputs) in
    let third : RescueLane × SkipReason = (anchor_only, already_attempted) in
    if inputs.has_untried_reserve_family
    then decide reserve_broaden []
    else if inputs.candidate_feedback_enabled
        && (not inputs.candidate_feedback_attempted && inputs.has_feedback_seed_resumes)
    then decide candidate_feedback (first ∷ [])
    else if not inputs.anchor_only_broaden_attempted
    then decide anchor_only (first ∷ second ∷ [])
    else decide allow_stop (first ∷ second ∷ third ∷ [])

unfoldable pub choose_rescue_lane : RescueInputs → RescueDecision
choose_rescue_lane inputs =
    if not (is_rescue_status inputs.stop_guidance.quality_gate_status)
    then if inputs.stop_guidance.can_stop
      then decide allow_stop []
      else decide continue_controller []
    else rescue inputs
