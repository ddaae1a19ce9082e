-- ===== src/Retrieval/Lanes/Tests.antt =====
-- Two lanes, and an outcome with natural numbers for rates.
use cv_match.Common.Floats.{Floats}
use cv_match.Retrieval.Lanes.{
  exploit, prf_probe, allocate_initial_lane_targets, Thresholds, Measures,
}
use cv_match.Common.{ℕ, ◌-◌, leb, ◌∷◌, ltb, [], ◌≡◌, refl}
use cv_match.Retrieval.Lanes.Shares.{IsFairSplit, allocate-IsFairSplit}

ten :
    allocate_initial_lane_targets (prf_probe ∷ exploit ∷ []) 10 ≡ (exploit, 7) ∷ (prf_probe, 3) ∷ []
unfolding allocate_initial_lane_targets
ten = refl

two :
    allocate_initial_lane_targets (exploit ∷ prf_probe ∷ []) 2 ≡ (exploit, 1) ∷ (prf_probe, 1) ∷ []
unfolding allocate_initial_lane_targets
two = refl

allocate-IsFairSplit_example :
    IsFairSplit prf_probe exploit 10 (allocate_initial_lane_targets (prf_probe ∷ exploit ∷ []) 10)
allocate-IsFairSplit_example = allocate-IsFairSplit prf_probe exploit 10 refl

abbrev percent : Floats
percent = record { Float = ℕ; float_le = leb; float_lt = ltb; float_sub = λ a b. a - b }

abbrev usual : Thresholds percent
usual = record {
  noise_threshold = 10;
  must_have_noise_threshold = 30;
  drift_must_have_drop = 15;
  drift_off_intent_min_count = 2;
  low_recall_threshold = 2;
  high_precision_threshold = 70;
}

abbrev noisy : Measures percent
noisy = record {
  provider_returned_count = 10;
  new_unique_resume_count = 5;
  new_fit_or_near_fit_count = 0;
  fit_rate = 0;
  must_have_match_avg = 20;
  exploit_baseline_must_have_match_avg = 20;
  off_intent_reason_count = 0;
}
