-- ===== src/QueryPlan/Canonical/Queries.antt =====
-- What an accepted query is: one primary anchor in front, and the companions that the round
-- allows, with what the pool and the test of repeated families say of them.
use cv_match.Common.{
  if◌then◌else◌, none, ℕ, List, Bool, ◌≡◌, true, ◌≤◌, ◌∷◌, ◌⊎◌, some, [], All, Distinct, false,
  length, Option, ◌&&◌, ap, suc, not, Bool-cases, any, inl, arith, subst, refl, inr,
}
use cv_match.Text.{Unicode, Text, text_eq, mem_text, casefold, is_blank, strip}
use cv_match.QueryPlan.Terms.{
  QueryTermCandidate, duplicates_from, is_admitted, lookup_term, is_primary_anchor_candidate,
  is_secondary_role,
}
use cv_match.QueryPlan.Canonical.{Rules, pool_candidates, terms_of, is_refused_inactive}
use cv_match.Text.Strip.{text_eq_iff, text_eq_comm}

module _ ⦃u : Unicode⦄ where
  -- Two candidates of one family, which is not blank
  abbrev pub same_family : QueryTermCandidate → QueryTermCandidate → Bool
  same_family x y = text_eq x.family y.family && not (is_blank (strip y.family))

  pub same_family_comm : (x y : QueryTermCandidate) → same_family x y ≡ same_family y x
  same_family_comm x y = elim (Bool-cases (text_eq x.family y.family)) [
    | inl e ↦ equal x.family y.family ((text_eq_iff x.family y.family).0 e)
    | inr n ↦ ground (arith, text_eq_comm x.family y.family)
  ]
    where
      equal :
          (f g : Text)
          → f ≡ g
          → (text_eq f g && not (is_blank (strip g))) ≡ (text_eq g f && not (is_blank (strip f)))
      equal f g e = rw e refl

  -- A look-up in the pool by the key of some term finds the item.
  abbrev pub IsPooled : List QueryTermCandidate → QueryTermCandidate → Type 0
  IsPooled pool item = (key : Text) × (lookup_term pool key ≡ some item)

  -- A companion that the rules allow: admitted, no primary anchor, from round 2 on no secondary
  -- title anchor, and active unless it is one or the rules name it.
  pub record IsCompanion (rules : Rules) (item : QueryTermCandidate) : Type 0 where
    pub admitted_value : is_admitted item ≡ true
    pub not_primary : is_primary_anchor_candidate item ≡ false
    pub not_secondary : 2 ≤ rules.round_no → is_secondary_role item.retrieval_role ≡ false
    pub not_refused : is_refused_inactive rules item ≡ false

  abbrev pub IsCounted : Rules → ℕ → Type 0
  IsCounted rules n =
      (rules.round_no ≡ 1 → n ≡ 1) × (2 ≤ rules.round_no → (1 ≤ n) × (n ≤ 2)) × (n ≤ 2)

  some-eq : {A : Type 0} {a b : A} → some a ≡ some b → a ≡ b
  some-eq h = cc

  -- The query of several terms
  pub record IsQuery (pool : List QueryTermCandidate) (rules : Rules) (terms : List Text)
      : Type 0 where
    pub anchor : QueryTermCandidate
    pub companions : List QueryTermCandidate
    pub written : terms ≡ anchor.term ∷ terms_of companions
    pub pooled : All (IsPooled pool) (anchor ∷ companions)
    pub primary : is_primary_anchor_candidate anchor ≡ true
    pub allowed : All (IsCompanion rules) companions
    pub families : Distinct same_family (anchor ∷ companions)
    pub count : IsCounted rules (length companions)

  -- and the query of the anchor alone
  pub record IsAnchorOnly (pool : List QueryTermCandidate) (rules : Rules) (terms : List Text)
      : Type 0 where
    pub anchor : QueryTermCandidate
    pub written : terms ≡ anchor.term ∷ []
    pub pooled : IsPooled pool anchor
    pub primary : is_primary_anchor_candidate anchor ≡ true
    pub switched_on : rules.allow_anchor_only ≡ true

  abbrev pub IsAccepted : List QueryTermCandidate → Rules → List Text → Type 0
  IsAccepted pool rules terms = IsAnchorOnly pool rules terms ⊎ IsQuery pool rules terms

  pub pool_candidates-IsPooled :
      (pool : List QueryTermCandidate) (ts : List Text) (items : List QueryTermCandidate)
      → pool_candidates pool ts ≡ some items
      → All (IsPooled pool) items × (length items ≡ length ts)
  unfolding pool_candidates
  pool_candidates-IsPooled pool [] items h =
      subst (λ l. All (IsPooled pool) l × (length l ≡ 0)) (some-eq h) (tt, refl)
  pool_candidates-IsPooled pool (t ∷ ts) items h =
      cases (lookup_term pool (casefold t)) (pool_candidates pool ts) refl
        (pool_candidates-IsPooled pool ts) h
    where
      cases :
          (found : Option QueryTermCandidate) (others : Option (List QueryTermCandidate))
          → lookup_term pool (casefold t) ≡ found
          → ((rest : List QueryTermCandidate)
              → others ≡ some rest
              → All (IsPooled pool) rest × (length rest ≡ length ts))
          → (elim found [
            | none ↦ none
            | some item ↦ elim others [ none ↦ none | some rest ↦ some (item ∷ rest) ]
          ])
            ≡ some items
          → All (IsPooled pool) items × (length items ≡ suc (length ts))
      cases none others f o e = cc
      cases (some item) none f o e = cc
      cases (some item) (some rest) f o e =
          let (all_rest, len) = o rest refl in
          subst (λ l. All (IsPooled pool) l × (length l ≡ suc (length ts))) (some-eq e)
            (((casefold t, f), all_rest), ap suc len)

  any_blank :
      (x : QueryTermCandidate) (items : List QueryTermCandidate)
      → is_blank (strip x.family) ≡ true
      → any (same_family x) items ≡ false
  any_blank x [] h = refl
  any_blank x (y ∷ items) h = ground (arith, any_blank x items h, same_family_comm x y, h)

  away :
      (x : QueryTermCandidate) (seen : List Text) (items : List QueryTermCandidate)
      → All
          (λ y. (mem_text y.family (x.family ∷ seen) && not (is_blank (strip y.family))) ≡ false)
          items
      → (any (same_family x) items ≡ false)
        × All (λ y. (mem_text y.family seen && not (is_blank (strip y.family))) ≡ false) items
  away x seen [] h = (refl, tt)
  away x seen (y ∷ items) h =
      let (front, rest) = away x seen items h.1 in
      (ground (arith, h.0, front, text_eq_comm x.family y.family), (ground (arith, h.0), rest))

  pub duplicates-Distinct :
      (seen : List Text) (items : List QueryTermCandidate)
      → All (λ v. is_blank (strip v) ≡ true) (duplicates_from seen items)
      → Distinct same_family items
        × All (λ y. (mem_text y.family seen && not (is_blank (strip y.family))) ≡ false) items
  unfolding duplicates_from
  duplicates-Distinct seen [] h = (tt, tt)
  duplicates-Distinct seen (item ∷ items) h = elim (Bool-cases (mem_text item.family seen)) [
    | inl old ↦
        let h' =
          subst
            (λ b.
              All (λ v. is_blank (strip v) ≡ true)
                (if b
                  then item.family ∷ duplicates_from seen items
                  else duplicates_from (item.family ∷ seen) items))
            old h in
        let (apart, new) = duplicates-Distinct seen items h'.1 in
        ((any_blank item items h'.0, apart), (ground (arith, h'.0), new))
    | inr fresh ↦
        let h' =
          subst
            (λ b.
              All (λ v. is_blank (strip v) ≡ true)
                (if b
                  then item.family ∷ duplicates_from seen items
                  else duplicates_from (item.family ∷ seen) items))
            fresh h in
        let (apart, new) = duplicates-Distinct (item.family ∷ seen) items h' in
        let (front, others) = away item seen items new in
        ((front, apart), (ground (arith, fresh), others))
  ]
