-- ===== src/QueryPlan/Locations/Shares.antt =====
-- The shares that `allocate_balanced_city_targets` gives: their sum, their size, their cities.
use native.Mathlib.Nat.{div-eq_of_lt}
use cv_match.Common.{
  zero, ◌%◌, if◌then◌else◌, take, ◌==◌, zero, sym, ◌/◌, ap, ◌∙◌, refl, false, ltb→lt,
}
use cv_match.QueryPlan.Locations.{allocate_from, allocate_balanced_city_targets}
use cv_match.Common.{
  List, ℕ, ◌≤◌, All, ◌≡◌, ◌+◌, ◌∷◌, length, suc, [], ◌*◌, Bool-cases, ◌-◌, ltb, arith, inl, inr,
}

enough : (n k : ℕ) → (n / suc k == 0) ≡ false → suc k ≤ n
enough n k e = elim (Bool-cases (ltb n (suc k))) [
  | inl less ↦
      let none_whole = div-eq_of_lt (ltb→lt n (suc k) less) in absurd (ground (arith, none_whole))
  | inr e ↦ ground arith
]

positive : (n : ℕ) → (suc n == 0) ≡ false
positive n = ground arith

module _ {ℓ} {A : Type ℓ} where
  abbrev pub total : List (A × ℕ) → ℕ
  total [] = 0
  total ((city, count) ∷ rest) = count + total rest

  abbrev pub cities_of : List (A × ℕ) → List A
  cities_of [] = []
  cities_of ((city, count) ∷ rest) = city ∷ cities_of rest

  -- A share is not 0, and is the lower share or the lower share and one more.
  abbrev pub IsShare : ℕ → A × ℕ → Type 0
  IsShare base (city, count) = (1 ≤ count) × (base ≤ count) × (count ≤ base + 1)

  take-empty : (n : ℕ) → take {A = A} n [] ≡ []
  take-empty zero = refl
  take-empty (suc n) = refl

  take-all : (n : ℕ) (xs : List A) → length xs ≤ n → take n xs ≡ xs
  take-all zero [] h = refl
  take-all zero (x ∷ xs) h = absurd (omega arith)
  take-all (suc n) [] h = refl
  take-all (suc n) (x ∷ xs) h = ap (◌∷◌ x) (take-all n xs (omega arith))

  allocate_from-total :
      (base remainder index : ℕ) (cities : List A)
      → remainder ≤ index + length cities
      → total (allocate_from base remainder index cities)
        ≡ base * length cities + (remainder - index)
  unfolding allocate_from
  allocate_from-total base remainder index [] h = omega arith
  allocate_from-total base remainder index (city ∷ cities) h =
      grind (arith, allocate_from-total base remainder (suc index) cities)

  allocate_from-IsShare :
      (base remainder index : ℕ) (cities : List A)
      → All (IsShare base) (allocate_from base remainder index cities)
  unfolding allocate_from
  allocate_from-IsShare base remainder index [] = tt
  allocate_from-IsShare base remainder index (city ∷ cities) =
      step _ (base + (if ltb index remainder then 1 else 0)) (ground arith) (ground arith)
        (allocate_from-IsShare base remainder (suc index) cities)
    where
      step :
          (rest : List (A × ℕ)) (n : ℕ)
          → base ≤ n
          → n ≤ base + 1
          → All (IsShare base) rest
          → All (IsShare base) (if n == 0 then rest else (city, n) ∷ rest)
      step rest n low high h = elim (Bool-cases (n == 0)) [
        | inl e ↦ rw e h
        | inr e ↦ rw e ((ground arith, low, high), h)
      ]

  -- Where there is a base share every city is served; where there is none, those with a rest.
  allocate_from-cities :
      (base remainder index : ℕ) (cities : List A)
      → cities_of (allocate_from base remainder index cities)
        ≡ (if base == 0 then take (remainder - index) cities else cities)
  unfolding allocate_from
  allocate_from-cities base remainder index [] = elim (Bool-cases (base == 0)) [
    | inl e ↦ rw e (rw (take-empty (remainder - index)) refl)
    | inr e ↦ rw e refl
  ]
  allocate_from-cities zero remainder index (city ∷ cities) =
      elim (Bool-cases (ltb index remainder)) [
        | inl e ↦
            let more : remainder - index ≡ suc (remainder - suc index) = ground arith in
            rw (e, more) (ap (◌∷◌ city) (allocate_from-cities 0 remainder (suc index) cities))
        | inr e ↦
            let none_left : remainder - index ≡ 0 = ground arith in
            let none_later : remainder - suc index ≡ 0 = ground arith in
            rw (e, none_left)
              (allocate_from-cities 0 remainder (suc index) cities
                ∙ ap (λ n. take n cities) none_later)
      ]
  allocate_from-cities (suc base) remainder index (city ∷ cities) =
      rw (some_base, positive base)
        (ap (◌∷◌ city)
          (allocate_from-cities (suc base) remainder (suc index) cities ∙ rw (positive base) refl))
    where
      some_base : (suc base + (if ltb index remainder then 1 else 0) == 0) ≡ false
      some_base = ground arith

  -- The shares of some cities add up to the requested number. Each is at least 1, and no two
  -- differ by more than 1. The cities that get one are the first in the order, as many as there
  -- are units to give.
  pub allocate-total :
      (city : A) (others : List A) (target_new : ℕ)
      → let cities = city ∷ others in
        let allocations = allocate_balanced_city_targets cities target_new in
        (total allocations ≡ target_new)
        × All (IsShare (target_new / length cities)) allocations
        × (cities_of allocations ≡ take target_new cities)
  unfolding allocate_balanced_city_targets
  allocate-total city others zero = (refl, tt, refl)
  allocate-total city others (suc n) = rw (positive n) (
    allocate_from-total (suc n / count) (suc n % count) 0 (city ∷ others) (omega arith)
        ∙ omega arith,
    allocate_from-IsShare (suc n / count) (suc n % count) 0 (city ∷ others),
    allocate_from-cities (suc n / count) (suc n % count) 0 (city ∷ others) ∙ served,
  )
    where
      count : ℕ
      count = length (city ∷ others)

      served :
          (if suc n / count == 0 then take (suc n % count - 0) (city ∷ others) else city ∷ others)
          ≡ take (suc n) (city ∷ others)
      served = elim (Bool-cases (suc n / count == 0)) [
        | inl e ↦
            let whole : suc n % count - 0 ≡ suc n = ground arith in
            rw e (ap (λ k. take k (city ∷ others)) whole)
        | inr e ↦ rw e (sym (take-all (suc n) (city ∷ others) (enough (suc n) (length others) e)))
      ]
