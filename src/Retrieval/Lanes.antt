-- ===== src/Retrieval/Lanes.antt =====
-- The lanes of a round: `allocate_initial_lane_targets`, `allow_lane_refill` and
-- `_final_exhausted_reason` of runtime/retrieval_runtime.py, and `classify_query_outcome` of
-- runtime/runtime_diagnostics.py, whose labels decide on a refill.
mod Shares
mod Labels
mod Tests
use cv_match.Common.Floats.{Floats}
use cv_match.Retrieval.Search.{ExhaustedReason, target_satisfied, cts_exhausted}
use cv_match.Common.{
  if◌then◌else◌, ℕ, max, min, ◌*◌, ◌/◌, ◌+◌, ◌-◌, Bool, List, ltb, Option, find, true, ◌∷◌, leb,
  any, some, ◌&&◌, false, [], not, ◌==◌, none,
}

pub data LaneType : Type 0 where
  exploit generic_explore prf_probe : LaneType

abbrev pub is_exploit : LaneType → Bool
is_exploit exploit = true
is_exploit _ = false

abbrev pub lane_eq : LaneType → LaneType → Bool
lane_eq exploit exploit = true
lane_eq generic_explore generic_explore = true
lane_eq prf_probe prf_probe = true
lane_eq _ _ = false

-- `ceil(target_new * 0.7)`
abbrev pub seven_tenths : ℕ → ℕ
seven_tenths target_new = (7 * target_new + 9) / 10

-- `{first: a, second: b}`: of two equal keys the later value is kept.
abbrev pub two_targets : LaneType → ℕ → LaneType → ℕ → List (LaneType × ℕ)
two_targets first a second b =
    if lane_eq first second then (second, b) ∷ [] else (first, a) ∷ (second, b) ∷ []

-- the larger share and the smaller, for a target of at least 2
abbrev pub split_target : ℕ → ℕ → ℕ × ℕ
split_target first_target target_new =
    let second_target = max 1 (target_new - first_target) in
    if ltb target_new (first_target + second_target)
    then (target_new - second_target, second_target)
    else (first_target, second_target)

abbrev pub shares_of : LaneType → LaneType → ℕ → ℕ → List (LaneType × ℕ)
shares_of first second first_target target_new =
    if leb target_new 1
    then two_targets first target_new second 0
    else two_targets first (split_target first_target target_new).0 second
        (split_target first_target target_new).1

-- The first lane that is no exploit lane. The source looks in a set: its order matters only where
-- a round has two such lanes beside the exploit lane.
abbrev pub second_lane : List LaneType → LaneType
second_lane [] = exploit
second_lane (lane ∷ lanes) = if is_exploit lane then second_lane lanes else lane

unfoldable pub allocate_initial_lane_targets : List LaneType → ℕ → List (LaneType × ℕ)
allocate_initial_lane_targets [] target_new = []
allocate_initial_lane_targets (lane ∷ []) target_new = (lane, target_new) ∷ []
allocate_initial_lane_targets (first ∷ second ∷ lanes) target_new =
    if not (any is_exploit (first ∷ second ∷ lanes))
    then shares_of first second (max 1 (seven_tenths target_new)) target_new
    else shares_of exploit (second_lane (first ∷ second ∷ lanes))
        (min target_new (max 1 (seven_tenths target_new))) target_new

pub data OutcomeLabel : Type 0 where
  zero_recall duplicate_only drift_suspected : OutcomeLabel
  broad_noise marginal_gain low_recall_high_precision : OutcomeLabel

abbrev pub label_eq : OutcomeLabel → OutcomeLabel → Bool
label_eq zero_recall zero_recall = true
label_eq duplicate_only duplicate_only = true
label_eq drift_suspected drift_suspected = true
label_eq broad_noise broad_noise = true
label_eq marginal_gain marginal_gain = true
label_eq low_recall_high_precision low_recall_high_precision = true
label_eq _ _ = false

abbrev pub has_label : List OutcomeLabel → OutcomeLabel → Bool
has_label labels label = any (label_eq label) labels

pub record Thresholds (f : Floats) : Type 0 where
  pub noise_threshold : f.Float
  pub must_have_noise_threshold : f.Float
  pub drift_must_have_drop : f.Float
  pub drift_off_intent_min_count : ℕ
  pub low_recall_threshold : ℕ
  pub high_precision_threshold : f.Float

pub record Measures (f : Floats) : Type 0 where
  pub provider_returned_count : ℕ
  pub new_unique_resume_count : ℕ
  pub new_fit_or_near_fit_count : ℕ
  pub fit_rate : f.Float
  pub must_have_match_avg : f.Float
  pub exploit_baseline_must_have_match_avg : f.Float
  pub off_intent_reason_count : ℕ

pub record QueryOutcomeClassification : Type 0 where
  pub primary_label : OutcomeLabel
  pub labels : List OutcomeLabel

abbrev pub add_label : Bool → OutcomeLabel → List OutcomeLabel → List OutcomeLabel
add_label true label labels = label ∷ labels
add_label false label labels = labels

abbrev pub priority : List OutcomeLabel
priority =
    zero_recall ∷ duplicate_only ∷ drift_suspected ∷ broad_noise ∷ marginal_gain
    ∷ low_recall_high_precision ∷ []

abbrev pub or_default : Option OutcomeLabel → OutcomeLabel
or_default none = low_recall_high_precision
or_default (some label) = label

module _ (f : Floats) where
  abbrev pub is_noise : Thresholds f → Measures f → Bool
  is_noise t m =
      leb 1 m.new_unique_resume_count
      && (f.float_le m.fit_rate t.noise_threshold
          && f.float_le m.must_have_match_avg t.must_have_noise_threshold)

  abbrev pub is_drift : Thresholds f → Measures f → Bool
  is_drift t m =
      leb 1 m.new_unique_resume_count
      && (f.float_lt m.must_have_match_avg
            (f.float_sub m.exploit_baseline_must_have_match_avg t.drift_must_have_drop)
          && leb t.drift_off_intent_min_count m.off_intent_reason_count)

  abbrev pub is_precise : Thresholds f → Measures f → Bool
  is_precise t m =
      leb m.new_unique_resume_count t.low_recall_threshold
      && f.float_le t.high_precision_threshold m.fit_rate

  -- the set of labels, in alphabetical order
  abbrev pub labels_of : Thresholds f → Measures f → List OutcomeLabel
  labels_of t m = add_label (is_noise t m) broad_noise (
      add_label (is_drift t m) drift_suspected (
        add_label (ltb 0 m.provider_returned_count && m.new_unique_resume_count == 0) duplicate_only
          (add_label (is_precise t m) low_recall_high_precision (
            add_label (leb 1 m.new_fit_or_near_fit_count) marginal_gain
              (add_label (m.provider_returned_count == 0) zero_recall [])))))

  unfoldable pub classify_query_outcome : Thresholds f → Measures f → QueryOutcomeClassification
  classify_query_outcome t m =
      let labels = labels_of t m in
      record { primary_label = or_default (find (has_label labels) priority); labels = labels }

abbrev pub is_blocking : OutcomeLabel → Bool
is_blocking zero_recall = true
is_blocking duplicate_only = true
is_blocking broad_noise = true
is_blocking drift_suspected = true
is_blocking _ = false

unfoldable pub allow_lane_refill : LaneType → Option QueryOutcomeClassification → Bool
allow_lane_refill lane none = true
allow_lane_refill lane (some outcome) =
    if is_exploit lane then true else not (any is_blocking outcome.labels)

-- the loop over the reversed summaries
abbrev pub last_reason : List (Option ExhaustedReason) → ExhaustedReason → ExhaustedReason
last_reason [] default = default
last_reason (none ∷ summaries) default = last_reason summaries default
last_reason (some reason ∷ summaries) default = last_reason summaries reason

-- `_final_exhausted_reason`, of the reasons of the city summaries; a summary may have none.
unfoldable pub final_exhausted_reason : ℕ → ℕ → List (Option ExhaustedReason) → ExhaustedReason
final_exhausted_reason target_new new_candidate_count summaries =
    if leb target_new new_candidate_count
    then target_satisfied
    else last_reason summaries cts_exhausted
