-- ===== src/QueryPlan/Locations/Coverage.antt =====
-- A location plan visits the allowed cities and no others.
use cv_match.Common.{
  ◌%◌, ℕ, List, Bool, ◌++◌, ◌≡◌, select, ◌||◌, ◌∷◌, ◌&&◌, arith, false, length, subst, ◌≤◌, [],
  drop, refl, take, Bool-cases, not, ◌∙◌, sym, inl, ap, take-append-drop, inr,
}
use cv_match.QueryPlan.Locations.{
  rotate_locations, LocationExecutionPlan, build_location_execution_plan, plan_of, rotation_offset,
}
use cv_match.Text.{Text, mem_text, text_eq}
use cv_match.Text.Strip.{text_eq_refl, text_eq_iff}

-- the cities that a plan visits, in order
abbrev pub visited : LocationExecutionPlan → List Text
visited plan = plan.priority_order ++ plan.balanced_order

mem_text-append :
    (c : Text) (xs ys : List Text) → mem_text c (xs ++ ys) ≡ (mem_text c xs || mem_text c ys)
mem_text-append c [] ys = refl
mem_text-append c (x ∷ xs) ys = ground (arith, mem_text-append c xs ys)

mem_text-rotate :
    (c : Text) (xs : List Text) (offset : ℕ)
    → mem_text c (rotate_locations xs offset) ≡ mem_text c xs
mem_text-rotate c [] offset = refl
mem_text-rotate c (x ∷ xs) offset =
    let k = offset % length (x ∷ xs) in
    let swap = mem_text-append c (drop k (x ∷ xs)) (take k (x ∷ xs)) in
    let whole = mem_text-append c (take k (x ∷ xs)) (drop k (x ∷ xs)) in
    swap
    ∙ or_comm (mem_text c (drop k (x ∷ xs))) (mem_text c (take k (x ∷ xs)))
    ∙ sym whole
    ∙ ap (mem_text c) (take-append-drop k (x ∷ xs))
  where
    or_comm : (a b : Bool) → (a || b) ≡ (b || a)
    or_comm a b = ground arith

covers : (p a r s b : Bool) → r ≡ s → s ≡ (not p && a) → p ≡ (a && b) → (p || r) ≡ a
covers p a r s b rot sel e = ground arith

apart : (p a r s b : Bool) → r ≡ s → s ≡ (not p && a) → p ≡ (a && b) → (p && r) ≡ false
apart p a r s b rot sel e = ground arith

-- A selection by a test that respects equal cities
pub mem_text-select :
    (p : Text → Bool) (c : Text) (xs : List Text)
    → mem_text c (select p xs) ≡ (p c && mem_text c xs)
mem_text-select p c [] = ground arith
mem_text-select p c (x ∷ xs) = elim (Bool-cases (text_eq c x)) [
  | inl e ↦ same x ((text_eq_iff c x).0 e) (mem_text-select p c xs)
  | inr e ↦ ground (arith, mem_text-select p c xs)
]
  where
    same :
        (y : Text)
        → c ≡ y
        → mem_text c (select p xs) ≡ (p c && mem_text c xs)
        → mem_text c (select p (y ∷ xs)) ≡ (p c && mem_text c (y ∷ xs))
    same y e ih =
        subst (λ z. mem_text c (select p (z ∷ xs)) ≡ (p c && mem_text c (z ∷ xs))) e
          (ground (arith, ih, text_eq_refl c))

-- A plan visits every allowed city and no other. No city stands in both the priority order and the
-- balanced order, and the priority order holds the preferred cities that are allowed, where there
-- is more than one city to choose from.
pub build-visited :
    (allowed preferred : List Text) (round_no target_new : ℕ) (c : Text)
    → let plan = build_location_execution_plan allowed preferred round_no target_new in
      (mem_text c (visited plan) ≡ mem_text c allowed)
      × ((mem_text c plan.priority_order && mem_text c plan.balanced_order) ≡ false)
      × (2 ≤ length allowed
          → mem_text c plan.priority_order ≡ (mem_text c allowed && mem_text c preferred))
unfolding build_location_execution_plan
build-visited [] preferred round_no target_new c = (refl, refl, λ h. absurd (omega arith))
build-visited (city ∷ []) preferred round_no target_new c = (refl, refl, λ h. absurd (omega arith))
build-visited (city ∷ other ∷ cities) preferred round_no target_new c =
    cases (select (λ d. mem_text d allowed) preferred)
      (mem_text-select (λ d. mem_text d allowed) c preferred)
  where
    allowed : List Text
    allowed = city ∷ other ∷ cities

    cases :
        (chosen : List Text)
        → mem_text c chosen ≡ (mem_text c allowed && mem_text c preferred)
        → let plan = plan_of allowed chosen round_no target_new in
          (mem_text c (visited plan) ≡ mem_text c allowed)
          × ((mem_text c plan.priority_order && mem_text c plan.balanced_order) ≡ false)
          × (2 ≤ length allowed
              → mem_text c plan.priority_order ≡ (mem_text c allowed && mem_text c preferred))
    cases [] e = (mem_text-rotate c allowed _, refl, λ h. e)
    cases (x ∷ xs) e =
        let rot =
          mem_text-rotate c (select (λ d. not (mem_text d (x ∷ xs))) allowed)
            (rotation_offset round_no (length (select (λ d. not (mem_text d (x ∷ xs))) allowed))) in
        let sel = mem_text-select (λ d. not (mem_text d (x ∷ xs))) c allowed in
        let app = mem_text-append c (x ∷ xs) (
          rotate_locations (select (λ d. not (mem_text d (x ∷ xs))) allowed) (
            rotation_offset round_no (length (select (λ d. not (mem_text d (x ∷ xs))) allowed)))) in
        (app ∙ covers _ _ _ _ _ rot sel e, apart _ _ _ _ _ rot sel e, λ h. e)
