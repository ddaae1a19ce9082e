-- ===== src/QueryPlan/Locations.antt =====
-- The order in which a round visits the allowed cities, and the share of each: the functions on
-- locations of query_plan.py. A requested number is a natural number here, and 0 stands for the
-- numbers below 0 too, which `allocate_balanced_city_targets` treats alike.
mod Rotation
mod Shares
pub mod Coverage
mod Tests
use cv_match.Text.{Text, mem_text}
use cv_match.Common.{
  zero, List, ℕ, ◌∷◌, length, select, ◌%◌, ◌+◌, if◌then◌else◌, [], not, drop, ltb, ◌==◌, ◌++◌, suc,
  ◌/◌, take,
}

pub data LocationMode : Type 0 where
  no_location single priority_then_fallback balanced_all : LocationMode

pub record LocationExecutionPlan : Type 0 where
  pub mode : LocationMode
  pub allowed_locations : List Text
  pub preferred_locations : List Text
  pub priority_order : List Text
  pub balanced_order : List Text
  pub rotation_offset : ℕ
  pub target_new : ℕ

-- `(round_no - 1) % city_count`, also in round 0, where it is the last position
abbrev pub rotation_offset : ℕ → ℕ → ℕ
rotation_offset round_no zero = 0
rotation_offset round_no (suc n) = (round_no + n) % suc n

abbrev pub rotate_locations {ℓ} : {A : Type ℓ} → List A → ℕ → List A
rotate_locations [] offset = []
rotate_locations (x ∷ xs) offset =
    let cities = x ∷ xs in
    let normalized_offset = offset % length cities in
    drop normalized_offset cities ++ take normalized_offset cities

-- The loop over the cities
unfoldable pub allocate_from {ℓ} : {A : Type ℓ} → ℕ → ℕ → ℕ → List A → List (A × ℕ)
allocate_from base_share remainder index [] = []
allocate_from base_share remainder index (city ∷ cities) =
    let requested_count = base_share + (if ltb index remainder then 1 else 0) in
    let rest = allocate_from base_share remainder (suc index) cities in
    if requested_count == 0 then rest else (city, requested_count) ∷ rest

unfoldable pub allocate_balanced_city_targets {ℓ} : {A : Type ℓ} → List A → ℕ → List (A × ℕ)
allocate_balanced_city_targets [] target_new = []
allocate_balanced_city_targets (city ∷ cities) target_new =
    let count = length (city ∷ cities) in
    if target_new == 0
    then []
    else allocate_from (target_new / count) (target_new % count) 0 (city ∷ cities)

abbrev pub balanced_plan : List Text → ℕ → ℕ → LocationExecutionPlan
balanced_plan allowed round_no target_new =
    let offset = rotation_offset round_no (length allowed) in
    record {
      mode = balanced_all;
      allowed_locations = allowed;
      preferred_locations = [];
      priority_order = [];
      balanced_order = rotate_locations allowed offset;
      rotation_offset = offset;
      target_new = target_new;
    }

abbrev pub priority_plan : List Text → List Text → ℕ → ℕ → LocationExecutionPlan
priority_plan allowed preferred round_no target_new =
    let fallback = select (λ city. not (mem_text city preferred)) allowed in
    let offset = rotation_offset round_no (length fallback) in
    record {
      mode = priority_then_fallback;
      allowed_locations = allowed;
      preferred_locations = preferred;
      priority_order = preferred;
      balanced_order = rotate_locations fallback offset;
      rotation_offset = offset;
      target_new = target_new;
    }

-- on what the two tests of more than one city choose between
abbrev pub plan_of : List Text → List Text → ℕ → ℕ → LocationExecutionPlan
plan_of allowed [] round_no target_new = balanced_plan allowed round_no target_new
plan_of allowed (city ∷ preferred) round_no target_new =
    priority_plan allowed (city ∷ preferred) round_no target_new

unfoldable pub build_location_execution_plan : List Text → List Text → ℕ → ℕ → LocationExecutionPlan
build_location_execution_plan [] preferred round_no target_new = record {
  mode = no_location;
  allowed_locations = [];
  preferred_locations = [];
  priority_order = [];
  balanced_order = [];
  rotation_offset = 0;
  target_new = target_new;
}
build_location_execution_plan (city ∷ []) preferred round_no target_new = record {
  mode = single;
  allowed_locations = city ∷ [];
  preferred_locations = [];
  priority_order = [];
  balanced_order = city ∷ [];
  rotation_offset = 0;
  target_new = target_new;
}
build_location_execution_plan (city ∷ other ∷ cities) preferred round_no target_new =
    let allowed = city ∷ other ∷ cities in
    plan_of allowed (select (λ c. mem_text c allowed) preferred) round_no target_new
