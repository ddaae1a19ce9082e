-- ===== src/QueryPlan/Locations/Rotation.antt =====
-- Rotation: the city that leads, and the return after as many rounds as there are cities.
use cv_match.Common.{
  zero, ◌%◌, ℕ, List, Option, ◌<◌, ◌≡◌, ◌∷◌, none, length, some, drop, suc, subst, ◌++◌, arith, ◌+◌,
  [], take, refl, take-append-drop, ap, ◌∙◌,
}
use mathlib.Core.List.{Perm, perm_append_comm}
use mathlib.Core.List.Perm
use native.Mathlib.Nat.{add-mod_right, mod-eq_of_lt}
use cv_match.QueryPlan.Locations.{rotate_locations, rotation_offset}

module _ {ℓ} {A : Type ℓ} where
  abbrev pub get_elem? : List A → ℕ → Option A
  get_elem? [] i = none
  get_elem? (x ∷ xs) zero = some x
  get_elem? (x ∷ xs) (suc i) = get_elem? xs i

  get-drop :
      (xs ys : List A) (k : ℕ) → k < length xs → get_elem? (drop k xs ++ ys) 0 ≡ get_elem? xs k
  get-drop [] ys k h = absurd (omega arith)
  get-drop (x ∷ xs) ys zero h = refl
  get-drop (x ∷ xs) ys (suc k) h = get-drop xs ys k (omega arith)

  rotate-leads :
      (cities : List A) (offset : ℕ)
      → get_elem? (rotate_locations cities offset) 0 ≡ get_elem? cities (offset % length cities)
  rotate-leads [] offset = refl
  rotate-leads (x ∷ xs) offset = get-drop (x ∷ xs) _ (offset % suc (length xs)) (omega arith)

  -- A rotation has the members of the list, each as often.
  pub rotate-perm : (cities : List A) (offset : ℕ) → Perm (rotate_locations cities offset) cities
  rotate-perm [] offset = Perm.refl _
  rotate-perm (x ∷ xs) offset =
      let k = offset % length (x ∷ xs) in
      subst (λ l. Perm (drop k (x ∷ xs) ++ take k (x ∷ xs)) l) (take-append-drop k (x ∷ xs))
        (perm_append_comm (drop k (x ∷ xs)) (take k (x ∷ xs)))

  -- Every city leads in turn: of the rounds from 1 on, round `i + 1` starts with the city at
  -- position `i`, and after one round for each city the order is the same again.
  pub rotate-turn :
      (cities : List A) (i : ℕ)
      → i < length cities
      → (get_elem? (rotate_locations cities (rotation_offset (suc i) (length cities))) 0
          ≡ get_elem? cities i)
        × ((round_no : ℕ)
            → rotate_locations cities (rotation_offset (round_no + length cities) (length cities))
              ≡ rotate_locations cities (rotation_offset round_no (length cities)))
  rotate-turn [] i h = absurd (omega arith)
  rotate-turn (x ∷ xs) i h = (
    rotate-leads (x ∷ xs) _ ∙ ap (get_elem? (x ∷ xs)) at_i,
    λ round_no. ap (rotate_locations (x ∷ xs)) (again round_no),
  )
    where
      n : ℕ
      n = length xs

      shift : (k : ℕ) → suc k + n ≡ k + suc n
      shift k = omega arith

      swap : (k : ℕ) → k + suc n + n ≡ k + n + suc n
      swap k = omega arith

      at_i : rotation_offset (suc i) (suc n) % suc n ≡ i
      at_i =
          ap (λ k. k % suc n)
            (ap (λ k. k % suc n) (shift i) ∙ add-mod_right i (suc n) ∙ mod-eq_of_lt h)
          ∙ mod-eq_of_lt h

      again :
          (round_no : ℕ)
          → rotation_offset (round_no + suc n) (suc n) ≡ rotation_offset round_no (suc n)
      again round_no = ap (λ k. k % suc n) (swap round_no) ∙ add-mod_right (round_no + n) (suc n)
