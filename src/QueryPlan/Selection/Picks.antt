-- ===== src/QueryPlan/Selection/Picks.antt =====
-- What the loop of `select_query_terms` picks.
use cv_match.QueryPlan.Selection.{pick_terms}
use cv_match.Common.{
  ℕ, ◌≤◌, ◌-◌, min, List, ◌≡◌, inl, inr, false, ◌∷◌, [], Bool, Bool-cases, ◌==◌, refl, All, All-map,
  Distinct, any, length, arith, leb, if◌then◌else◌,
}
use cv_match.Text.{Unicode, Text, mem_text, text_eq}
use cv_match.QueryPlan.Canonical.{is_empty_list}
use cv_match.QueryPlan.Terms.{QueryTermCandidate}

abbrev pub one_family : QueryTermCandidate → QueryTermCandidate → Bool
one_family x y = text_eq y.family x.family

module _ ⦃u : Unicode⦄ where
  pub pick-All {κ} :
      (P : QueryTermCandidate → Type κ) (budget : ℕ) (used : List Text)
      (items : List QueryTermCandidate)
      → All P items
      → All P (pick_terms budget used items)
  unfolding pick_terms
  pick-All P budget used [] h = tt
  pick-All P budget used (item ∷ items) h = elim (Bool-cases (mem_text item.family used)) [
    | inl e ↦ rw e (pick-All P budget used items h.1)
    | inr e ↦ elim (Bool-cases (leb budget 1)) [
      | inl last ↦ rw (e, last) (h.0, tt)
      | inr more ↦ rw (e, more) (h.0, pick-All P (budget - 1) (item.family ∷ used) items h.1)
    ]
  ]

  pick-length :
      (budget : ℕ) (used : List Text) (items : List QueryTermCandidate)
      → 1 ≤ budget
      → length (pick_terms budget used items) ≤ budget
  unfolding pick_terms
  pick-length budget used [] h = omega arith
  pick-length budget used (item ∷ items) h = elim (Bool-cases (mem_text item.family used)) [
    | inl e ↦ rw e (pick-length budget used items h)
    | inr e ↦ elim (Bool-cases (leb budget 1)) [
      | inl last ↦ rw (e, last) (omega arith)
      | inr more ↦
          rw (e, more) (ground (arith, pick-length (budget - 1) (item.family ∷ used) items))
    ]
  ]

  pub pick-unused :
      (budget : ℕ) (used : List Text) (items : List QueryTermCandidate)
      → All (λ item. mem_text item.family used ≡ false) (pick_terms budget used items)
  unfolding pick_terms
  pick-unused budget used [] = tt
  pick-unused budget used (item ∷ items) = elim (Bool-cases (mem_text item.family used)) [
    | inl e ↦ rw e (pick-unused budget used items)
    | inr e ↦ elim (Bool-cases (leb budget 1)) [
      | inl last ↦ rw (e, last) (e, tt)
      | inr more ↦
          rw (e, more)
            (
              e,
              All-map _ (λ y h. ground arith) (pick-unused (budget - 1) (item.family ∷ used) items),
            )
    ]
  ]

  none_of :
      (item : QueryTermCandidate) (used : List Text) (ys : List QueryTermCandidate)
      → All (λ y. mem_text y.family (item.family ∷ used) ≡ false) ys
      → any (one_family item) ys ≡ false
  none_of item used [] h = refl
  none_of item used (y ∷ ys) h = ground (arith, none_of item used ys, h.0)

  pub pick-Distinct :
      (budget : ℕ) (used : List Text) (items : List QueryTermCandidate)
      → Distinct one_family (pick_terms budget used items)
  unfolding pick_terms
  pick-Distinct budget used [] = tt
  pick-Distinct budget used (item ∷ items) = elim (Bool-cases (mem_text item.family used)) [
    | inl e ↦ rw e (pick-Distinct budget used items)
    | inr e ↦ elim (Bool-cases (leb budget 1)) [
      | inl last ↦ rw (e, last) (refl, tt)
      | inr more ↦
          rw (e, more)
            (
              none_of item used (pick_terms (budget - 1) (item.family ∷ used) items)
                  (pick-unused (budget - 1) (item.family ∷ used) items),
              pick-Distinct (budget - 1) (item.family ∷ used) items,
            )
    ]
  ]

  abbrev pub budget_of : ℕ → List QueryTermCandidate → ℕ
  budget_of round_no ordered = if round_no == 1 then 1 else min 2 (length ordered)

  pub pick-few :
      (round_no : ℕ) (used : List Text) (ordered : List QueryTermCandidate)
      → length (pick_terms (budget_of round_no ordered) used ordered)
        ≤ (if round_no == 1 then 1 else 2)
  unfolding pick_terms
  pick-few round_no used [] = omega arith
  pick-few round_no used (x ∷ xs) = elim (Bool-cases (round_no == 1)) [
    | inl e ↦ rw e (pick-length 1 used (x ∷ xs) (omega arith))
    | inr e ↦
        rw e (omega (arith, pick-length (min 2 (length (x ∷ xs))) used (x ∷ xs) (omega arith)))
  ]

  pub not_empty : (items : List QueryTermCandidate) → is_empty_list items ≡ false → 1 ≤ length items
  not_empty [] h = absurd (ground arith)
  not_empty (x ∷ xs) h = omega arith
