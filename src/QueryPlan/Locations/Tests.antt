-- ===== src/QueryPlan/Locations/Tests.antt =====
-- Three cities, of which two are preferred, one of them not allowed.
use cv_match.Common.{ℕ, ◌∷◌, [], ◌≡◌, All, some, true, refl, ◌+◌, ◌&&◌, false, arith, ◌≤◌}
use cv_match.Text.{Text, mem_text}
use cv_match.QueryPlan.Locations.{
  allocate_balanced_city_targets, build_location_execution_plan, allocate_from, rotate_locations,
  rotation_offset,
}
use cv_match.QueryPlan.Locations.Rotation.{get_elem?, rotate-turn}
use cv_match.QueryPlan.Locations.Coverage.{visited, build-visited}
use cv_match.QueryPlan.Locations.Shares.{total, IsShare, cities_of, allocate-total}

abbrev a : Text
a = 97 ∷ []

abbrev b : Text
b = 98 ∷ []

abbrev c : Text
c = 99 ∷ []

abbrev d : Text
d = 100 ∷ []

three_shares : allocate_balanced_city_targets (a ∷ b ∷ c ∷ []) 10 ≡ (a, 4) ∷ (b, 3) ∷ (c, 3) ∷ []
unfolding allocate_balanced_city_targets allocate_from
three_shares = refl

few_units : allocate_balanced_city_targets (a ∷ b ∷ c ∷ []) 2 ≡ (a, 1) ∷ (b, 1) ∷ []
unfolding allocate_balanced_city_targets allocate_from
few_units = refl

priority :
    visited (build_location_execution_plan (a ∷ b ∷ c ∷ []) (d ∷ b ∷ []) 2 10) ≡ b ∷ c ∷ a ∷ []
unfolding build_location_execution_plan
priority = refl

allocate-total_example :
    let allocations = allocate_balanced_city_targets (a ∷ b ∷ c ∷ []) 10 in
    (total allocations ≡ 10)
    × All (IsShare 3) allocations
    × (cities_of allocations ≡ a ∷ b ∷ c ∷ [])
allocate-total_example = allocate-total a (b ∷ c ∷ []) 10

rotate-turn_example :
    (get_elem? (rotate_locations (a ∷ b ∷ c ∷ []) (rotation_offset 2 3)) 0 ≡ some b)
    × ((round_no : ℕ)
        → rotate_locations (a ∷ b ∷ c ∷ []) (rotation_offset (round_no + 3) 3)
          ≡ rotate_locations (a ∷ b ∷ c ∷ []) (rotation_offset round_no 3))
rotate-turn_example = rotate-turn (a ∷ b ∷ c ∷ []) 1 (omega arith)

build-visited_example :
    let plan = build_location_execution_plan (a ∷ b ∷ c ∷ []) (d ∷ b ∷ []) 2 10 in
    (mem_text c (visited plan) ≡ true)
    × ((mem_text c plan.priority_order && mem_text c plan.balanced_order) ≡ false)
    × (2 ≤ 3 → mem_text c plan.priority_order ≡ false)
build-visited_example = build-visited (a ∷ b ∷ c ∷ []) (d ∷ b ∷ []) 2 10 c
