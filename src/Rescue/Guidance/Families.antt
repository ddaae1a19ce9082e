-- ===== src/Rescue/Guidance/Families.antt =====
-- Which families `_untried_admitted_families` returns.
use cv_match.Rescue.Guidance.{
  family_candidates, untried_admitted_families_of, families_of, is_untried, family_before,
}
use cv_match.Common.{
  List, Bool, ◌≡◌, any, true, not, ◌&&◌, ◌∷◌, ap, ◌||◌, arith, Bool-cases, [], inl, ◌∙◌, refl, inr,
}
use cv_match.Text.{Unicode, Text, text_eq, mem_text}
use cv_match.QueryPlan.Terms.{QueryTermCandidate, is_admitted, is_title_anchor_role}
use cv_match.Text.Strip.{text_eq_iff}
use cv_match.Common.Sorting.{sort_by, any-sort_by}

module _ ⦃u : Unicode⦄ where
  abbrev pub has_family : Text → QueryTermCandidate → Bool
  has_family f item = text_eq f item.family

  mem_text-families :
      (f : Text) (items : List QueryTermCandidate)
      → mem_text f (families_of items) ≡ any (has_family f) items
  mem_text-families f [] = refl
  mem_text-families f (item ∷ items) =
      ap (λ b. text_eq f item.family || b) (mem_text-families f items)

  mem_text-equal :
      (f g : Text) (seen : List Text) → text_eq f g ≡ true → mem_text f seen ≡ mem_text g seen
  mem_text-equal f g seen h = ap (λ t. mem_text t seen) ((text_eq_iff f g).0 h)

  family_candidates-any :
      (tried seen : List Text) (f : Text) (items : List QueryTermCandidate)
      → any (has_family f) (family_candidates tried seen items) ≡ (
          not (mem_text f seen)
          && any (λ item. text_eq f item.family && is_untried tried item) items)
  unfolding family_candidates
  family_candidates-any tried seen f [] = ground arith
  family_candidates-any tried seen f (item ∷ items) =
      let keep = family_candidates-any tried (item.family ∷ seen) f items in
      let skip = family_candidates-any tried seen f items in
      elim (Bool-cases (is_untried tried item && not (mem_text item.family seen))) [
        | inl t ↦ rw t (ground (arith, keep, t, mem_text-equal f item.family seen))
        | inr n ↦ rw n (ground (arith, skip, n, mem_text-equal f item.family seen))
      ]

  -- An item that offers its family: active, admitted by the compiler, and no title anchor.
  abbrev pub offers : Text → QueryTermCandidate → Bool
  offers f item =
      text_eq f item.family
      && (item.active && (is_admitted item && not (is_title_anchor_role item.retrieval_role)))

  offered :
      (tried : List Text) (f : Text) (items : List QueryTermCandidate)
      → any (λ item. text_eq f item.family && is_untried tried item) items
        ≡ (not (mem_text f tried) && any (offers f) items)
  offered tried f [] = ground arith
  offered tried f (item ∷ items) =
      ground (arith, offered tried f items, mem_text-equal f item.family tried)

  -- A family is returned if and only if it was not tried and an item of the pool has it that is
  -- active, admitted and no title anchor.
  pub untried-mem_text :
      (pool : List QueryTermCandidate) (tried : List Text) (f : Text)
      → mem_text f (untried_admitted_families_of pool tried)
        ≡ (not (mem_text f tried) && any (offers f) pool)
  unfolding untried_admitted_families_of
  untried-mem_text pool tried f =
      mem_text-families f (sort_by family_before (family_candidates tried [] pool))
      ∙ any-sort_by family_before (has_family f) (family_candidates tried [] pool)
      ∙ family_candidates-any tried [] f pool
      ∙ offered tried f pool
