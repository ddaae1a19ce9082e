-- ===== src/Retrieval/Lanes/Shares.antt =====
-- How a target is split between two lanes.
use cv_match.Retrieval.Lanes.{
  exploit, generic_explore, prf_probe, allocate_initial_lane_targets, LaneType, lane_eq,
  seven_tenths, split_target, is_exploit, shares_of,
}
use cv_match.Common.{
  ◌+◌, ◌*◌, ℕ, List, ◌≤◌, ◌≡◌, false, ◌∷◌, arith, [], Bool-cases, leb, inl, inr, refl, Bool, true,
  ◌&&◌, ◌||◌,
}

-- Two lanes are two others, in either order.
abbrev pub are_lanes : LaneType → LaneType → LaneType → LaneType → Bool
are_lanes a b x y = lane_eq a x && lane_eq b y || lane_eq a y && lane_eq b x

-- The lanes `x` and `y`, with targets that add up to the whole. The second is no exploit lane,
-- its target is not the larger one, and is not 0 if the whole is at least 2. The first lane has
-- at most 70 percent, rounded up.
abbrev pub IsFairSplit : LaneType → LaneType → ℕ → List (LaneType × ℕ) → Type 0
IsFairSplit x y target_new ((first, a) ∷ (second, b) ∷ []) =
    (are_lanes first second x y ≡ true)
    × (is_exploit second ≡ false)
    × (a + b ≡ target_new)
    × (b ≤ a)
    × (2 ≤ target_new → 1 ≤ b)
    × (2 ≤ target_new → 10 * a ≤ 7 * target_new + 9)
IsFairSplit x y target_new _ = ⊥

split-fair :
    (t f : ℕ)
    → 2 ≤ t
    → f ≡ seven_tenths t
    → let s = split_target f t in (s.0 + s.1 ≡ t) × (1 ≤ s.1) × (s.1 ≤ s.0) × (10 * s.0 ≤ 7 * t + 9)
split-fair t f h e = ground arith

shares-IsFairSplit :
    (x y first second : LaneType) (t f : ℕ)
    → are_lanes first second x y ≡ true
    → lane_eq first second ≡ false
    → is_exploit second ≡ false
    → (2 ≤ t → f ≡ seven_tenths t)
    → IsFairSplit x y t (shares_of first second f t)
shares-IsFairSplit x y first second t f same apart other share = elim (Bool-cases (leb t 1)) [
  | inl small ↦
      rw (small, apart)
        (
          same,
          other,
          omega arith,
          omega arith,
          (λ h. absurd (ground arith)),
          (λ h. absurd (ground arith)),
        )
  | inr big ↦
      let two : 2 ≤ t = ground arith in
      let fair = split-fair t f two (share two) in
      rw (big, apart) (same, other, fair.0, fair.2, (λ h. fair.1), (λ h. fair.3))
]

-- The target of two different lanes is split fairly between them, whichever comes first; where
-- one is the exploit lane, it is the one with the larger share.
pub allocate-IsFairSplit :
    (first second : LaneType) (target_new : ℕ)
    → lane_eq first second ≡ false
    → IsFairSplit first second target_new
        (allocate_initial_lane_targets (first ∷ second ∷ []) target_new)
unfolding allocate_initial_lane_targets
allocate-IsFairSplit exploit exploit t h = cc
allocate-IsFairSplit exploit generic_explore t h =
    shares-IsFairSplit exploit generic_explore exploit generic_explore t _ refl refl refl
      (λ two. omega (arith, two))
allocate-IsFairSplit exploit prf_probe t h =
    shares-IsFairSplit exploit prf_probe exploit prf_probe t _ refl refl refl
      (λ two. omega (arith, two))
allocate-IsFairSplit generic_explore exploit t h =
    shares-IsFairSplit generic_explore exploit exploit generic_explore t _ refl refl refl
      (λ two. omega (arith, two))
allocate-IsFairSplit prf_probe exploit t h =
    shares-IsFairSplit prf_probe exploit exploit prf_probe t _ refl refl refl
      (λ two. omega (arith, two))
allocate-IsFairSplit generic_explore prf_probe t h =
    shares-IsFairSplit generic_explore prf_probe generic_explore prf_probe t _ refl refl refl
      (λ two. omega (arith, two))
allocate-IsFairSplit prf_probe generic_explore t h =
    shares-IsFairSplit prf_probe generic_explore prf_probe generic_explore t _ refl refl refl
      (λ two. omega (arith, two))
allocate-IsFairSplit generic_explore generic_explore t h = cc
allocate-IsFairSplit prf_probe prf_probe t h = cc
