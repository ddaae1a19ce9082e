-- ===== src/Liepin/DetailPlan.antt =====
-- The plan of the details to open, and the grant that opening one needs:
-- providers/liepin/policy.py. Times and budgets are natural numbers, so the errors for a budget
-- below 0 do not occur. The weak fingerprints, which change no decision, are left out.
mod Budgets
mod Tests
use cv_match.Common.Floats.{Floats}
use cv_match.Common.{
  ℕ, String, str_eq, if◌then◌else◌, min, ◌-◌, Option, List, leb, suc, some, Bool, ◌∷◌, not, false,
  [], none, ◌&&◌, any,
}

pub data DetailPlanAction : Type 0 where
  open_detail card_only : DetailPlanAction

pub data DetailPlanReason : Type 0 where
  detail_budget_available stable_provider_id_already_opened : DetailPlanReason
  low_card_value detail_budget_exhausted : DetailPlanReason

pub record DetailPlanDecision : Type 0 where
  pub candidate_id : String
  pub action : DetailPlanAction
  pub reason : DetailPlanReason

pub record DetailOpenGrant : Type 0 where
  pub candidate_ref : String
  pub source_run_id : String
  pub expires_at : ℕ

pub data GrantFailure : Type 0 where
  grant_missing grant_expired grant_candidate_mismatch grant_source_run_mismatch : GrantFailure

-- the failure code, and none where the opening is allowed
unfoldable pub validate_detail_open_grant :
    Option DetailOpenGrant → String → String → ℕ → Option GrantFailure
validate_detail_open_grant none candidate_ref source_run_id now = some grant_missing
validate_detail_open_grant (some grant) candidate_ref source_run_id now =
    if leb grant.expires_at now
    then some grant_expired
    else if not (str_eq grant.candidate_ref candidate_ref)
    then some grant_candidate_mismatch
    else if not (str_eq grant.source_run_id source_run_id)
    then some grant_source_run_mismatch
    else none

module _ (f : Floats) where
  pub record CardCandidate : Type 0 where
    pub candidate_id : String
    pub stable_provider_id : Option String
    pub card_value_score : f.Float

  -- the arguments that the loop reads
  pub record PlanLimits : Type 0 where
    pub already_opened_provider_ids : List String
    pub daily_detail_budget : ℕ
    pub min_card_value_score : f.Float

  -- An identifier that is missing or empty is not looked up.
  abbrev pub is_opened : PlanLimits → Option String → Bool
  is_opened limits none = false
  is_opened limits (some id) =
      not (str_eq id "") && any (str_eq id) limits.already_opened_provider_ids

  abbrev pub reason_for : PlanLimits → ℕ → CardCandidate → DetailPlanReason
  reason_for limits used candidate =
      if is_opened limits candidate.stable_provider_id
      then stable_provider_id_already_opened
      else if f.float_lt candidate.card_value_score limits.min_card_value_score
      then low_card_value
      else if leb limits.daily_detail_budget used
      then detail_budget_exhausted
      else detail_budget_available

  abbrev pub decision_of : CardCandidate → DetailPlanReason → DetailPlanDecision
  decision_of candidate detail_budget_available = record {
    candidate_id = candidate.candidate_id;
    action = open_detail;
    reason = detail_budget_available;
  }
  decision_of candidate reason = record {
    candidate_id = candidate.candidate_id;
    action = card_only;
    reason = reason;
  }

  abbrev pub used_after : ℕ → DetailPlanReason → ℕ
  used_after used detail_budget_available = suc used
  used_after used reason = used

  unfoldable pub build_detail_open_plan :
      PlanLimits → ℕ → List CardCandidate → List DetailPlanDecision
  build_detail_open_plan limits used [] = []
  build_detail_open_plan limits used (candidate ∷ candidates) =
      let reason = reason_for limits used candidate in
      decision_of candidate reason
      ∷ build_detail_open_plan limits (used_after used reason) candidates
