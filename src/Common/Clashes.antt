-- ===== src/Common/Clashes.antt =====
-- Lists with no two members that clash, as a UNIQUE constraint keeps them, and searches in a list
-- that grows at its end.

use cv_match.Common.Lists.{any, find, All}
use mathlib.Core.Path.{◌≡◌, refl}
use mathlib.Core.Bool.{Bool, true, false, ◌||◌}
use mathlib.Core.List.{List, [], ◌∷◌, ◌++◌}
use mathlib.Core.Option.{Option, none, some}
use native.Mathlib.Omega.{arith}

module _ {ℓ} {A : Type ℓ} where
  abbrev pub Distinct : (A → A → Bool) → List A → Type 0
  Distinct clash [] = Unit
  Distinct clash (x ∷ xs) = (any (clash x) xs ≡ false) × Distinct clash xs

  pub any-append : (p : A → Bool) (xs ys : List A) → any p (xs ++ ys) ≡ (any p xs || any p ys)
  any-append p [] ys = refl
  any-append p (x ∷ xs) ys = ground (arith, any-append p xs ys)

  abbrev pub or_find : Option A → Option A → Option A
  or_find none o = o
  or_find (some x) o = some x

  pub find-append :
      (p : A → Bool) (xs ys : List A) → find p (xs ++ ys) ≡ or_find (find p xs) (find p ys)
  find-append p [] ys = refl
  find-append p (x ∷ xs) ys = ground (arith, find-append p xs ys)

  pub find-none_of_any : (p : A → Bool) (xs : List A) → any p xs ≡ false → find p xs ≡ none
  find-none_of_any p [] h = refl
  find-none_of_any p (x ∷ xs) h = ground (arith, find-none_of_any p xs)

  pub any-true_of_find : (p : A → Bool) (xs : List A) (x : A) → find p xs ≡ some x → any p xs ≡ true
  any-true_of_find p [] x h = ground arith
  any-true_of_find p (y ∷ xs) x h = ground (arith, any-true_of_find p xs x)

  -- A member that clashes with none may be added at the end.
  pub Distinct-snoc :
      (clash : A → A → Bool)
      → ((x y : A) → clash x y ≡ clash y x)
      → (xs : List A) (x : A) → Distinct clash xs
      → any (clash x) xs ≡ false
      → Distinct clash (xs ++ x ∷ [])
  Distinct-snoc clash comm [] x d h = (refl, tt)
  Distinct-snoc clash comm (y ∷ xs) x d h = (
    ground (arith, any-append (clash y) xs (x ∷ []), comm x y, d.0),
    Distinct-snoc clash comm xs x d.1 (ground arith),
  )

  away :
      (clash : A → A → Bool)
      → ((x y : A) → clash x y ≡ clash y x)
      → (x : A) (xs ys : List A) → All (λ y. any (clash y) (x ∷ xs) ≡ false) ys
      → (any (clash x) ys ≡ false) × All (λ y. any (clash y) xs ≡ false) ys
  away clash comm x xs [] h = (refl, tt)
  away clash comm x xs (y ∷ ys) h =
      let (front, rest) = away clash comm x xs ys h.1 in
      (ground (arith, front, comm x y, h.0), (ground (arith, h.0), rest))

  -- Two lists without clashes, of which no members clash with each other, may be joined.
  pub Distinct-append :
      (clash : A → A → Bool)
      → ((x y : A) → clash x y ≡ clash y x)
      → (xs ys : List A) → Distinct clash xs
      → Distinct clash ys
      → All (λ y. any (clash y) xs ≡ false) ys
      → Distinct clash (xs ++ ys)
  Distinct-append clash comm [] ys d e h = e
  Distinct-append clash comm (x ∷ xs) ys d e h =
      let (front, rest) = away clash comm x xs ys h in
      (
        ground (arith, any-append (clash x) xs ys, d.0, front),
        Distinct-append clash comm xs ys d.1 e rest,
      )

  -- What no member satisfies, a found member does not.
  pub any-find :
      (p q : A → Bool) (xs : List A) (x : A) → find p xs ≡ some x → any q xs ≡ false → q x ≡ false
  any-find p q [] x h e = ground arith
  any-find p q (y ∷ xs) x h e = ground (arith, any-find p q xs x)
