-- ===== src/QueryPlan/Canonical/Families.antt =====
-- What `primary_anchors` with one member and an empty `duplicate_families` say of the candidates.
use cv_match.Common.{
  Bool, List, select, ◌≡◌, ◌∷◌, [], false, All, ◌+◌, Bool-cases, length, inl, ◌≤◌, inr, arith,
  length-select-le, true, sym, any, Distinct, refl, ◌∙◌, subst, ap, select-All, All-both,
}

module _ {ℓ} {A : Type ℓ} where
  select-true :
      (p : A → Bool) (y : A) (ys : List A) → p y ≡ true → select p (y ∷ ys) ≡ y ∷ select p ys
  select-true p y ys t = rw t refl

  select-false :
      (p : A → Bool) (y : A) (ys : List A) → p y ≡ false → select p (y ∷ ys) ≡ select p ys
  select-false p y ys f = rw f refl

  head_injective : {x y : A} {xs ys : List A} → x ∷ xs ≡ y ∷ ys → x ≡ y
  head_injective h = cc

  tail_injective : {x y : A} {xs ys : List A} → x ∷ xs ≡ y ∷ ys → xs ≡ ys
  tail_injective h = cc

  none-selected : (p : A → Bool) (xs : List A) → select p xs ≡ [] → All (λ y. p y ≡ false) xs
  none-selected p [] h = tt
  none-selected p (y ∷ ys) h = elim (Bool-cases (p y)) [
    | inl t ↦ absurd (distinct (sym (select-true p y ys t) ∙ h))
    | inr f ↦ (f, none-selected p ys (sym (select-false p y ys f) ∙ h))
  ]
    where
      distinct : {z : A} {zs : List A} → z ∷ zs ≡ [] → ⊥
      distinct h = cc

  -- The one member that a test selects, which another test refuses, and the others that this
  -- second test selects.
  pub select-others {κ} :
      (P : A → Type κ) (p q : A → Bool) (xs : List A) (x : A)
      → select p xs ≡ x ∷ []
      → q x ≡ false
      → All P xs
      → P x × (p x ≡ true) × All (λ y. P y × (p y ≡ false)) (select q xs)
  select-others P p q [] x h e a = cc
  select-others P p q (y ∷ ys) x h e a = elim (Bool-cases (p y)) [
    | inl t ↦
        let h' = sym (select-true p y ys t) ∙ h in
        let y-x = head_injective h' in
        (
          subst P y-x a.0,
          subst (λ z. p z ≡ true) y-x t,
          subst (All _) (sym (select-false q y ys (ap q y-x ∙ e)))
              (select-All _ q ys (All-both P _ ys a.1 (none-selected p ys (tail_injective h')))),
        )
    | inr f ↦
        let (px, tx, rest) = select-others P p q ys x (sym (select-false p y ys f) ∙ h) e a.1 in
        (
          px,
          tx,
          elim (Bool-cases (q y)) [
            | inl t ↦ subst (All _) (sym (select-true q y ys t)) ((a.0, f), rest)
            | inr g ↦ subst (All _) (sym (select-false q y ys g)) rest
          ],
        )
  ]

  select-apart : (p q : A → Bool) (xs : List A) → any p xs ≡ false → any p (select q xs) ≡ false
  select-apart p q [] h = refl
  select-apart p q (y ∷ ys) h = ground (arith, select-apart p q ys)

  Distinct-select :
      (clash : A → A → Bool) (q : A → Bool) (xs : List A)
      → Distinct clash xs
      → Distinct clash (select q xs)
  Distinct-select clash q [] d = tt
  Distinct-select clash q (y ∷ ys) d = elim (Bool-cases (q y)) [
    | inl t ↦
        subst (Distinct clash) (sym (select-true q y ys t))
          (select-apart (clash y) q ys d.0, Distinct-select clash q ys d.1)
    | inr f ↦ subst (Distinct clash) (sym (select-false q y ys f)) (Distinct-select clash q ys d.1)
  ]

  -- Members that do not clash still do not when one of them is moved to the front.
  pub Distinct-select-others :
      (clash : A → A → Bool)
      → ((x y : A) → clash x y ≡ clash y x)
      → (p q : A → Bool) (xs : List A) (x : A) → select p xs ≡ x ∷ []
      → q x ≡ false
      → Distinct clash xs
      → Distinct clash (x ∷ select q xs)
  Distinct-select-others clash comm p q xs x h e d = (apart xs h d, Distinct-select clash q xs d)
    where
      apart :
          (ys : List A)
          → select p ys ≡ x ∷ []
          → Distinct clash ys
          → any (clash x) (select q ys) ≡ false
      apart [] h d = cc
      apart (y ∷ ys) h d = elim (Bool-cases (p y)) [
        | inl t ↦
            let y-x = head_injective (sym (select-true p y ys t) ∙ h) in
            subst (λ l. any (clash x) l ≡ false) (sym (select-false q y ys (ap q y-x ∙ e)))
              (select-apart (clash x) q ys (subst (λ z. any (clash z) ys ≡ false) y-x d.0))
        | inr f ↦
            let h' = sym (select-false p y ys f) ∙ h in
            let away = comm x y ∙ apart_member (clash y) ys h' d.0 in
            let rest = apart ys h' d.1 in ground (arith, away, rest)
      ]
        where
          apart_member :
              (r : A → Bool) (zs : List A) → select p zs ≡ x ∷ [] → any r zs ≡ false → r x ≡ false
          apart_member r [] h n = cc
          apart_member r (z ∷ zs) h n = elim (Bool-cases (p z)) [
            | inl t ↦
                let z-x : z ≡ x = head_injective (sym (select-true p z zs t) ∙ h) in
                subst (λ w. r w ≡ false) z-x (ground arith)
            | inr g ↦ apart_member r zs (sym (select-false p z zs g) ∙ h) (ground arith)
          ]

  pub length-select-others :
      (p q : A → Bool) (xs : List A) (x : A)
      → select p xs ≡ x ∷ []
      → q x ≡ false
      → 1 + length (select q xs) ≤ length xs
  length-select-others p q [] x h e = cc
  length-select-others p q (y ∷ xs) x h e =
      ground (arith, length-select-others p q xs x, length-select-le q xs)
