-- ===== src/Liepin/DetailPlan/Budgets.antt =====
-- A plan keeps to the budget, and uses it up before it refuses for its sake.
use cv_match.Liepin.DetailPlan.{
  build_detail_open_plan, DetailPlanAction, DetailPlanDecision, DetailPlanReason, PlanLimits,
  CardCandidate, is_opened, open_detail, detail_budget_exhausted, card_only, decision_of,
  validate_detail_open_grant, reason_for, DetailOpenGrant, detail_budget_available,
  stable_provider_id_already_opened, low_card_value, used_after,
}
use cv_match.Common.Floats.{Floats}
use cv_match.Common.{
  str_eq_iff, ℕ, String, min, ◌-◌, List, Bool, length, true, select, not, ◌≡◌, false, arith, ◌&&◌,
  ◌∷◌, suc, [], Option, none, ◌↔◌, some, refl, ◌<◌, subst, sym,
}

abbrev pub is_open_action : DetailPlanAction → Bool
is_open_action open_detail = true
is_open_action card_only = false

abbrev pub is_opening : DetailPlanDecision → Bool
is_opening decision = is_open_action decision.action

abbrev pub is_exhausted_reason : DetailPlanReason → Bool
is_exhausted_reason detail_budget_exhausted = true
is_exhausted_reason _ = false

abbrev pub is_exhausted : DetailPlanDecision → Bool
is_exhausted decision = is_exhausted_reason decision.reason

abbrev pub openings : List DetailPlanDecision → ℕ
openings decisions = length (select is_opening decisions)

module _ (f : Floats) where
  -- A candidate whose detail is worth opening
  abbrev pub is_eligible : PlanLimits f → CardCandidate f → Bool
  is_eligible limits candidate =
      not (is_opened f limits candidate.stable_provider_id)
      && not (f.float_lt candidate.card_value_score limits.min_card_value_score)

  -- The number of openings, with the budget that is used: as many as there are eligible
  -- candidates and units left.
  openings-min :
      (limits : PlanLimits f) (used : ℕ) (candidates : List (CardCandidate f))
      → openings (build_detail_open_plan f limits used candidates)
        ≡ min (length (select (is_eligible limits) candidates)) (limits.daily_detail_budget - used)
  unfolding build_detail_open_plan
  openings-min limits used [] = omega arith
  openings-min limits used (c ∷ cs) =
      ground (arith, openings-min limits used cs, openings-min limits (suc used) cs)

  -- The decisions of the candidates, one for each and in their order; only an eligible candidate
  -- is opened, or refused for the sake of the budget.
  abbrev pub AreDecided : PlanLimits f → List (CardCandidate f) → List DetailPlanDecision → Type 0
  AreDecided limits [] [] = Unit
  AreDecided limits (c ∷ cs) (d ∷ ds) =
      (d.candidate_id ≡ c.candidate_id)
      × (is_opening d ≡ true → is_eligible limits c ≡ true)
      × (is_exhausted d ≡ true → is_eligible limits c ≡ true)
      × AreDecided limits cs ds
  AreDecided limits _ _ = ⊥

  plan-AreDecided :
      (limits : PlanLimits f) (used : ℕ) (candidates : List (CardCandidate f))
      → AreDecided limits candidates (build_detail_open_plan f limits used candidates)
  unfolding build_detail_open_plan
  plan-AreDecided limits used [] = tt
  plan-AreDecided limits used (c ∷ cs) = (
    named (reason_for f limits used c),
    (λ h. ground arith),
    (λ h. ground arith),
    plan-AreDecided limits (used_after f used (reason_for f limits used c)) cs,
  )
    where
      named : (reason : DetailPlanReason) → (decision_of f c reason).candidate_id ≡ c.candidate_id
      named detail_budget_available = refl
      named stable_provider_id_already_opened = refl
      named low_card_value = refl
      named detail_budget_exhausted = refl

  -- A plan opens as many details as there are eligible candidates and units of the budget left:
  -- never more than the budget, and as many as it allows. Every candidate is decided on, in order,
  -- and none that is not eligible is opened: whose detail was opened before or whose value is low.
  pub plan-openings :
      (limits : PlanLimits f) (consumed : ℕ) (candidates : List (CardCandidate f))
      → let plan = build_detail_open_plan f limits consumed candidates in
        (openings plan
          ≡ min
              (length (select (is_eligible limits) candidates))
              (limits.daily_detail_budget - consumed))
        × AreDecided limits candidates plan
  plan-openings limits consumed candidates =
      (openings-min limits consumed candidates, plan-AreDecided limits consumed candidates)

-- A detail may be opened exactly with a grant that has not expired, for this candidate, in this
-- run.
pub grant-valid :
    (grant : Option DetailOpenGrant) (candidate_ref source_run_id : String) (now : ℕ)
    → (validate_detail_open_grant grant candidate_ref source_run_id now ≡ none) ↔ (
        (g : DetailOpenGrant) × (grant ≡ some g)
        × (now < g.expires_at)
        × (g.candidate_ref ≡ candidate_ref)
        × (g.source_run_id ≡ source_run_id))
unfolding validate_detail_open_grant
grant-valid none candidate_ref source_run_id now = ((λ h. cc), (λ h. absurd (distinct h.1)))
  where
    distinct : {g : DetailOpenGrant} → none ≡ some g → ⊥
    distinct h = cc
grant-valid (some g) candidate_ref source_run_id now = (
  (λ h. (
    g,
    refl,
    ground arith,
    (str_eq_iff g.candidate_ref candidate_ref).0 (ground arith),
    (str_eq_iff g.source_run_id source_run_id).0 (ground arith),
  )),
  (λ h. back h.0 h.1 h.2 h.3 h.4),
)
  where
    back :
        (g' : DetailOpenGrant)
        → ◌≡◌ {A = Option DetailOpenGrant} (some g) (some g')
        → now < g'.expires_at
        → g'.candidate_ref ≡ candidate_ref
        → g'.source_run_id ≡ source_run_id
        → validate_detail_open_grant (some g) candidate_ref source_run_id now ≡ none
    back g' e time candidate run =
        subst (λ o. validate_detail_open_grant o candidate_ref source_run_id now ≡ none) (sym e)
          (ground (
            arith,
            time,
            (str_eq_iff g'.candidate_ref candidate_ref).1 candidate,
            (str_eq_iff g'.source_run_id source_run_id).1 run,
          ))
