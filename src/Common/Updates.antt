-- ===== src/Common/Updates.antt =====
-- SQL's UPDATE on a table that is a list of rows: what it keeps of the keys, the searches and the
-- counts, and the rows of a table whose key is a number.
use Prim.Native.Nat.{ℕ, ◌+◌, ◌≤◌}
use mathlib.Core.Path.{◌≡◌, refl, ap, ◌∙◌}
use mathlib.Core.Bool.{Bool, true, false, ◌&&◌}
use mathlib.Core.Logic.{inl, inr}
use mathlib.Core.List.{List, [], ◌∷◌, ◌++◌}
use mathlib.Core.Option.{Option, none, some}
use native.Mathlib.Omega.{arith}
use cv_match.Common.Tests.{if◌then◌else◌, ◌==◌, Bool-cases}
use cv_match.Common.Lists.{find, any, select, All}
use cv_match.Common.Clashes.{Distinct, Distinct-snoc}
use cv_match.Common.Sorting.{sort_by, insert_sorted, any-sort_by, any-insert_sorted}

abbrev pub bit : Bool → ℕ
bit true = 1
bit false = 0

module _ {ℓ} {A : Type ℓ} where
  abbrev pub update_where : (A → Bool) → (A → A) → List A → List A
  update_where p f [] = []
  update_where p f (x ∷ xs) = (if p x then f x else x) ∷ update_where p f xs

  abbrev pub count : (A → Bool) → List A → ℕ
  count p [] = 0
  count p (x ∷ xs) = bit (p x) + count p xs

  pub count-append : (p : A → Bool) (xs ys : List A) → count p (xs ++ ys) ≡ count p xs + count p ys
  count-append p [] ys = omega arith
  count-append p (x ∷ xs) ys = omega (arith, count-append p xs ys)

  pub count-snoc :
      (p : A → Bool) (xs : List A) (x : A) → count p (xs ++ x ∷ []) ≡ count p xs + bit (p x)
  count-snoc p xs x = omega (arith, count-append p xs (x ∷ []))

  pub count-snoc_miss :
      (p : A → Bool) (xs : List A) (x : A) → p x ≡ false → count p (xs ++ x ∷ []) ≡ count p xs + 0
  count-snoc_miss p xs x h = ground (arith, count-snoc p xs x)

  pub count_none : (p : A → Bool) (xs : List A) → any p xs ≡ false → count p xs ≡ 0
  count_none p [] h = refl
  count_none p (x ∷ xs) h = ground (arith, count_none p xs)

  pub count_some : (p : A → Bool) (xs : List A) → any p xs ≡ true → 1 ≤ count p xs
  count_some p [] h = absurd (ground arith)
  count_some p (x ∷ xs) h = ground (arith, count_some p xs)

  pub update_where_miss :
      (p : A → Bool) (f : A → A) (xs : List A) → any p xs ≡ false → update_where p f xs ≡ xs
  update_where_miss p f [] h = refl
  update_where_miss p f (x ∷ xs) h = ground (arith, update_where_miss p f xs)

  pub count_of_all : (p : A → Bool) (xs : List A) → All (λ x. p x ≡ false) xs → count p xs ≡ 0
  count_of_all p [] h = refl
  count_of_all p (x ∷ xs) h = ground (arith, count_of_all p xs, h.0)

  -- A count by a test that the UPDATE cannot change.
  pub count-update_same :
      (q p : A → Bool) (f : A → A)
      → ((x : A) → q (f x) ≡ q x)
      → (xs : List A) → count q (update_where p f xs) ≡ count q xs
  count-update_same q p f same [] = refl
  count-update_same q p f same (x ∷ xs) = ground (arith, count-update_same q p f same xs, same x)

  -- A count to which the UPDATE adds no row.
  pub count-update_le :
      (q p : A → Bool) (f : A → A)
      → ((x : A) → p x ≡ true → q (f x) ≡ true → q x ≡ true)
      → (xs : List A) → count q (update_where p f xs) ≤ count q xs
  count-update_le q p f adds_none [] = omega arith
  count-update_le q p f adds_none (x ∷ xs) =
      ground (arith, count-update_le q p f adds_none xs, adds_none x)

  -- Two UPDATEs of the same rows are one.
  pub update_where_twice :
      (p : A → Bool) (f g : A → A)
      → ((x : A) → p (f x) ≡ p x)
      → (xs : List A) → update_where p g (update_where p f xs) ≡ update_where p (λ x. g (f x)) xs
  update_where_twice p f g same [] = refl
  update_where_twice p f g same (x ∷ xs) = ground (arith, update_where_twice p f g same xs, same x)

  abbrev pub updated : (A → Bool) → (A → A) → Option A → Option A
  updated p f none = none
  updated p f (some x) = some (if p x then f x else x)

  -- What an UPDATE keeps of every row that it finds and of every row that it does not.
  pub update_where-All {κ μ} :
      {P : A → Type κ} (Q : A → Type μ) (p : A → Bool) (f : A → A)
      → ((x : A) → p x ≡ true → P x → Q (f x))
      → ((x : A) → p x ≡ false → P x → Q x)
      → (xs : List A) → All P xs
      → All Q (update_where p f xs)
  update_where-All Q p f hit miss [] h = tt
  update_where-All Q p f hit miss (x ∷ xs) h = elim (Bool-cases (p x)) [
    | inl e ↦ rw e (hit x e h.0, update_where-All Q p f hit miss xs h.1)
    | inr e ↦ rw e (miss x e h.0, update_where-All Q p f hit miss xs h.1)
  ]

-- A table with a primary key.
module _ {ℓ} {A : Type ℓ} (key : A → ℕ) where
  abbrev pub has_key_of : ℕ → A → Bool
  has_key_of k x = key x == k

  abbrev pub same_key_of : A → A → Bool
  same_key_of x y = key y == key x

  same_key_of_comm : (x y : A) → same_key_of x y ≡ same_key_of y x
  same_key_of_comm x y = ground arith

  -- No two rows have one key.
  abbrev pub IsKeyed : List A → Type 0
  IsKeyed xs = Distinct same_key_of xs

  -- A found row is the only one of its key.
  pub found_only :
      (p : A → Bool) (xs : List A) (x : A)
      → IsKeyed xs
      → find p xs ≡ some x
      → All (λ y. key y ≡ key x → y ≡ x) xs
  found_only p [] x d h = tt
  found_only p (y ∷ xs) x d h = elim (Bool-cases (p y)) [
    | inl e ↦ let e' : y ≡ x = ground arith in (λ _. e', away y xs e' d.0)
    | inr e ↦ (
      λ same. absurd (ground (arith, found_any p xs x y, d.0)),
      found_only p xs x d.1 (ground arith),
    )
  ]
    where
      away :
          (y : A) (ys : List A)
          → y ≡ x
          → any (same_key_of y) ys ≡ false
          → All (λ z. key z ≡ key x → z ≡ x) ys
      away y [] e h = tt
      away y (z ∷ ys) e h =
          let e' : key y ≡ key x = ap key e in
          (λ same. absurd (ground arith), away y ys e (ground arith))

      found_any :
          (p : A → Bool) (ys : List A) (x y : A)
          → find p ys ≡ some x
          → key y ≡ key x
          → any (same_key_of y) ys ≡ true
      found_any p [] x y h same = ground arith
      found_any p (z ∷ ys) x y h same = ground (arith, found_any p ys x y)

  module _ (p : A → Bool) (f : A → A) (stable : (x : A) → key (f x) ≡ key x) where
    -- An UPDATE that leaves the key alone keeps it unique.
    pub update_where-IsKeyed : (xs : List A) → IsKeyed xs → IsKeyed (update_where p f xs)
    update_where-IsKeyed [] d = tt
    update_where-IsKeyed (x ∷ xs) d =
        (ground (arith, any_key x xs, stable x, d.0), update_where-IsKeyed xs d.1)
      where
        any_key :
            (x : A) (ys : List A)
            → any (same_key_of (f x)) (update_where p f ys) ≡ any (same_key_of x) ys
        any_key x [] = refl
        any_key x (y ∷ ys) = ground (arith, any_key x ys, stable x, stable y)

    pub any_key-update_where :
        (k : ℕ) (xs : List A) → any (has_key_of k) (update_where p f xs) ≡ any (has_key_of k) xs
    any_key-update_where k [] = refl
    any_key-update_where k (x ∷ xs) = ground (arith, any_key-update_where k xs, stable x)

    -- A search by the key finds the row that it found before, updated.
    pub find-update_where :
        (k : ℕ) (xs : List A)
        → find (has_key_of k) (update_where p f xs) ≡ updated p f (find (has_key_of k) xs)
    find-update_where k [] = refl
    find-update_where k (x ∷ xs) = ground (arith, find-update_where k xs, stable x)

    -- An UPDATE of one row changes a count by what it changes of the row.
    pub count-update_where :
        (q : A → Bool) (x : A) (xs : List A)
        → IsKeyed xs
        → find (has_key_of (key x)) xs ≡ some x
        → p x ≡ true
        → ((y : A) → p y ≡ true → key y ≡ key x)
        → count q (update_where p f xs) + bit (q x) ≡ count q xs + bit (q (f x))
    count-update_where q x [] d h e only = absurd (ground arith)
    count-update_where q x (y ∷ xs) d h e only = elim (Bool-cases (key y == key x)) [
      | inl same ↦
          let first : y ≡ x = ground arith in
          rw (update_where_miss p f xs (any_only xs (key y) only (ground arith) d.0), first, e)
            (omega arith)
      | inr other ↦
          let miss : p y ≡ false = ground (arith, only y) in
          let rest = count-update_where q x xs d.1 (ground arith) e only in
          rw miss (omega (arith, rest))
    ]
      where
        any_only :
            (ys : List A) (k : ℕ)
            → ((z : A) → p z ≡ true → key z ≡ key x)
            → k ≡ key x
            → any (λ z. key z == k) ys ≡ false
            → any p ys ≡ false
        any_only [] k only e h = refl
        any_only (z ∷ ys) k only e h = ground (arith, only z, any_only ys k only e)

  -- A new key may be added at the end.
  pub IsKeyed-snoc :
      (xs : List A) (x : A)
      → IsKeyed xs
      → any (has_key_of (key x)) xs ≡ false
      → IsKeyed (xs ++ x ∷ [])
  IsKeyed-snoc xs x d h = Distinct-snoc same_key_of same_key_of_comm xs x d h

  -- Of the rows of one key there is the one that is found.
  pub any_at_key :
      (p : A → Bool) (x : A) (xs : List A)
      → IsKeyed xs
      → find (has_key_of (key x)) xs ≡ some x
      → any (λ y. p y && key x == key y) xs ≡ p x
  any_at_key p x [] d h = absurd (ground arith)
  any_at_key p x (y ∷ xs) d h = elim (Bool-cases (key y == key x)) [
    | inl same ↦
        let e : y ≡ x = ground arith in ground (arith, others xs (key y) (key x) d.0, ap p e)
    | inr other ↦ ground (arith, any_at_key p x xs d.1)
  ]
    where
      others :
          (ys : List A) (j k : ℕ)
          → any (λ z. key z == j) ys ≡ false
          → j ≡ k
          → any (λ z. p z && k == key z) ys ≡ false
      others [] j k h e = refl
      others (z ∷ ys) j k h e = ground (arith, others ys j k)

  -- Every row is the one that its key finds.
  pub found_all : (xs : List A) → IsKeyed xs → All (λ x. find (has_key_of (key x)) xs ≡ some x) xs
  found_all [] d = tt
  found_all (x ∷ xs) d = (ground arith, still x xs xs d.0 (found_all xs d.1))
    where
      still :
          (x : A) (xs ys : List A)
          → any (same_key_of x) ys ≡ false
          → All (λ y. find (has_key_of (key y)) xs ≡ some y) ys
          → All (λ y. find (has_key_of (key y)) (x ∷ xs) ≡ some y) ys
      still x xs [] h k = tt
      still x xs (y ∷ ys) h k = (ground (arith, k.0), still x xs ys (ground arith) k.1)

  any_key_select :
      (x : A) (p : A → Bool) (xs : List A)
      → any (same_key_of x) xs ≡ false
      → any (same_key_of x) (select p xs) ≡ false
  any_key_select x p [] h = refl
  any_key_select x p (y ∷ xs) h = ground (arith, any_key_select x p xs)

  pub select-IsKeyed : (p : A → Bool) (xs : List A) → IsKeyed xs → IsKeyed (select p xs)
  select-IsKeyed p [] d = tt
  select-IsKeyed p (x ∷ xs) d = elim (Bool-cases (p x)) [
    | inl e ↦ rw e (any_key_select x p xs d.0, select-IsKeyed p xs d.1)
    | inr e ↦ rw e (select-IsKeyed p xs d.1)
  ]

  module _ (before : A → A → Bool) where
    insert-IsKeyed :
        (x : A) (xs : List A)
        → IsKeyed xs
        → any (same_key_of x) xs ≡ false
        → IsKeyed (insert_sorted before x xs)
    unfolding insert_sorted
    insert-IsKeyed x [] d h = (refl, tt)
    insert-IsKeyed x (y ∷ xs) d h = elim (Bool-cases (before y x)) [
      | inl e ↦ rw e (
        ground (arith, any-insert_sorted before (same_key_of y) x xs, d.0),
        insert-IsKeyed x xs d.1 (ground arith),
      )
      | inr e ↦ rw e (h, d)
    ]

    pub sort_by-IsKeyed : (xs : List A) → IsKeyed xs → IsKeyed (sort_by before xs)
    unfolding sort_by
    sort_by-IsKeyed [] d = tt
    sort_by-IsKeyed (x ∷ xs) d =
        insert-IsKeyed x (sort_by before xs) (sort_by-IsKeyed xs d.1)
          (any-sort_by before (same_key_of x) xs ∙ d.0)
