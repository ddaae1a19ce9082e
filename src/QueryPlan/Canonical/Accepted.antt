-- ===== src/QueryPlan/Canonical/Accepted.antt =====
-- The tests of `canonicalize_controller_query_terms` let only queries pass that are as the rules
-- want them.
use cv_match.QueryPlan.Canonical.Queries.{
  IsQuery, IsAccepted, IsPooled, IsCompanion, IsCounted, same_family, same_family_comm,
  duplicates-Distinct, pool_candidates-IsPooled,
}
use cv_match.Common.{
  ◌==◌, ltb, none, ℕ, List, Bool, ◌≡◌, true, ◌≤◌, ◌∷◌, some, [], All, Distinct, false, length,
  Option, ◌&&◌, ap, not, any, inl, arith, subst, refl, inr, refuse, ok, select, ok-injective, OnOk,
  OnOk-then, OnOk-ok, ◌||◌, All-both, All-any, sym, All-map,
}
use cv_match.Text.{Unicode, Text, casefold, unique_strings}
use cv_match.QueryPlan.Terms.{
  QueryTermCandidate, is_admitted, is_primary_anchor_candidate, is_secondary_role,
  duplicate_families,
}
use cv_match.QueryPlan.Canonical.{
  Rules, terms_of, is_refused_inactive, is_empty_list, one_anchor, check_companions, is_companion,
  check_candidates, found_all, canonicalize_controller_query_terms, normalized_terms,
}
use cv_match.Text.Strip.{text_eq_refl}
use cv_match.QueryPlan.Canonical.Families.{
  length-select-others, select-others, Distinct-select-others,
}
use cv_match.Text.Unique.{All-blank_of_none}

module _ ⦃u : Unicode⦄ where
  is_empty_list-eq : {A : Type 0} (xs : List A) → not (is_empty_list xs) ≡ false → xs ≡ []
  is_empty_list-eq [] h = refl
  is_empty_list-eq (x ∷ xs) h = cc

  refuse-ok : {E : Type 0} (b : Bool) (e : E) {t : Unit {0}} → refuse b e ≡ ok t → b ≡ false
  refuse-ok true e h = cc
  refuse-ok false e h = refl

  one_anchor-eq :
      (anchors : List QueryTermCandidate) {anchor : QueryTermCandidate}
      → one_anchor anchors ≡ ok anchor
      → anchors ≡ anchor ∷ []
  one_anchor-eq [] h = cc
  one_anchor-eq (x ∷ []) h = ap (λ a. a ∷ []) (ok-injective h)
  one_anchor-eq (x ∷ y ∷ xs) h = cc

  is_companion-anchor : (anchor : QueryTermCandidate) → is_companion anchor anchor ≡ false
  is_companion-anchor anchor = ap not (text_eq_refl (casefold anchor.term))

  length-companions :
      (rules : Rules) (n : ℕ)
      → (rules.round_no == 1 && not (n == 1)) ≡ false
      → (ltb 1 rules.round_no && not (n == 1 || n == 2)) ≡ false
      → n ≤ 2
      → IsCounted rules n
  length-companions rules n one later bound = ((λ h. ground arith), (λ h. ground arith), bound)

  -- From the tests that `check_companions` makes
  tested-IsQuery :
      (pool : List QueryTermCandidate) (rules : Rules) (candidates : List QueryTermCandidate)
      (anchor : QueryTermCandidate) (companions : List QueryTermCandidate)
      → companions ≡ select (is_companion anchor) candidates
      → All (IsPooled pool) candidates
      → length candidates ≤ 3
      → any (λ item. not (is_admitted item)) candidates ≡ false
      → select is_primary_anchor_candidate candidates ≡ anchor ∷ []
      → IsCounted rules (length companions)
      → (ltb 1 rules.round_no && any (λ item. is_secondary_role item.retrieval_role) companions)
        ≡ false
      → any (is_refused_inactive rules) companions ≡ false
      → duplicate_families candidates ≡ []
      → IsQuery pool rules (anchor.term ∷ terms_of companions)
  unfolding duplicate_families
  tested-IsQuery pool rules candidates anchor companions e pooled size admitted one count secondary
        inactive repeated =
      let ((pa, _), primary, rest) =
        select-others (λ y. IsPooled pool y × (not (is_admitted y) ≡ false))
          is_primary_anchor_candidate (is_companion anchor) candidates anchor one
          (is_companion-anchor anchor)
          (All-both (IsPooled pool) (λ y. not (is_admitted y) ≡ false) candidates pooled
            (All-any _ candidates admitted)) in
      let rest' =
        subst
          (All (λ y.
            (IsPooled pool y × (not (is_admitted y) ≡ false))
            × (is_primary_anchor_candidate y ≡ false)))
          (sym e) rest in
      record {
        anchor = anchor;
        companions = companions;
        written = refl;
        pooled = (pa, All-map companions (λ y h. h.0.0) rest');
        primary = primary;
        allowed = each companions rest' secondary inactive;
        families =
            subst (λ l. Distinct same_family (anchor ∷ l)) (sym e)
              (Distinct-select-others same_family same_family_comm is_primary_anchor_candidate
                (is_companion anchor) candidates anchor one (is_companion-anchor anchor)
                (duplicates-Distinct [] candidates (All-blank_of_none _ repeated)).0);
        count = count;
      }
    where
      each :
          (ys : List QueryTermCandidate)
          → All
              (λ y.
                (IsPooled pool y × (not (is_admitted y) ≡ false))
                × (is_primary_anchor_candidate y ≡ false))
              ys
          → (ltb 1 rules.round_no && any (λ item. is_secondary_role item.retrieval_role) ys) ≡ false
          → any (is_refused_inactive rules) ys ≡ false
          → All (IsCompanion rules) ys
      each [] h s i = tt
      each (y ∷ ys) h s i = (
        record {
          admitted_value = ground (arith, h.0.0.1);
          not_primary = h.0.1;
          not_secondary = λ r. ground arith;
          not_refused = ground arith;
        },
        each ys h.1 (ground arith) (ground arith),
      )

  check_companions-IsQuery :
      (pool : List QueryTermCandidate) (rules : Rules) (candidates : List QueryTermCandidate)
      (anchor : QueryTermCandidate)
      → All (IsPooled pool) candidates
      → length candidates ≤ 3
      → any (λ item. not (is_admitted item)) candidates ≡ false
      → select is_primary_anchor_candidate candidates ≡ anchor ∷ []
      → OnOk (IsQuery pool rules) (check_companions rules candidates anchor)
  unfolding check_companions
  check_companions-IsQuery pool rules candidates anchor pooled size admitted one =
      OnOk-then (IsQuery pool rules) _ _ λ _ round_one.
        OnOk-then (IsQuery pool rules) _ _ λ _ later.
          OnOk-then (IsQuery pool rules) _ _ λ _ secondary.
            OnOk-then (IsQuery pool rules) _ _ λ _ inactive.
              OnOk-then (IsQuery pool rules) _ _ λ _ repeated. OnOk-ok (IsQuery pool rules) _ (
                tested-IsQuery pool rules candidates anchor _ refl pooled size admitted one
                  (length-companions rules _ (refuse-ok _ _ round_one) (refuse-ok _ _ later) (
                    omega (
                      arith,
                      size,
                      length-select-others is_primary_anchor_candidate (is_companion anchor)
                          candidates anchor one (is_companion-anchor anchor),
                    )))
                  (refuse-ok _ _ secondary) (refuse-ok _ _ inactive)
                  (is_empty_list-eq _ (refuse-ok _ _ repeated)))

  check_candidates-IsAccepted :
      (pool : List QueryTermCandidate) (rules : Rules) (candidates : List QueryTermCandidate)
      → All (IsPooled pool) candidates
      → length candidates ≤ 3
      → OnOk (IsAccepted pool rules) (check_candidates rules candidates)
  unfolding check_candidates
  check_candidates-IsAccepted pool rules (item ∷ []) pooled size =
      OnOk-then (IsAccepted pool rules) _ _ λ _ alone. OnOk-ok (IsAccepted pool rules) _ (
        inl (record {
          anchor = item;
          written = refl;
          pooled = pooled.0;
          primary = primary (refuse-ok _ _ alone);
          switched_on = on (refuse-ok _ _ alone);
        }))
    where
      primary :
          not (rules.allow_anchor_only && is_primary_anchor_candidate item) ≡ false
          → is_primary_anchor_candidate item ≡ true
      primary h = ground arith

      on :
          not (rules.allow_anchor_only && is_primary_anchor_candidate item) ≡ false
          → rules.allow_anchor_only ≡ true
      on h = ground arith
  check_candidates-IsAccepted pool rules [] pooled size =
      OnOk-then (IsAccepted pool rules) _ _
        λ _ _. OnOk-then (IsAccepted pool rules) _ _ λ anchor one. absurd (distinct one)
    where
      distinct : {a : QueryTermCandidate} → one_anchor [] ≡ ok a → ⊥
      distinct h = cc
  check_candidates-IsAccepted pool rules (x ∷ y ∷ items) pooled size =
      OnOk-then (IsAccepted pool rules) _ _ λ _ admitted.
        OnOk-then (IsAccepted pool rules) _ _ λ anchor one. record {
          at = λ terms e. inr (
              (check_companions-IsQuery pool rules (x ∷ y ∷ items) anchor pooled size
                  (refuse-ok _ _ admitted) (one_anchor-eq _ one)).at
                terms e);
        }

  found_all-eq :
      (o : Option (List QueryTermCandidate)) {items : List QueryTermCandidate}
      → found_all o ≡ ok items
      → o ≡ some items
  found_all-eq none h = cc
  found_all-eq (some items) h = ap some (ok-injective h)

  -- A query that is accepted is either the primary anchor alone, where the rules switch that on,
  -- or one admitted primary anchor in front of companions. Every item is found in the pool. The
  -- companions are admitted and no primary anchors, and active unless the rules or their role let
  -- them be inactive; from round 2 on none is a secondary title anchor. No two items share a
  -- family that is not blank. In round 1 there is one companion, in later rounds there are one or
  -- two, and never more than two.
  pub canonicalize-IsAccepted :
      (pool : List QueryTermCandidate) (rules : Rules) (proposed_terms terms : List Text)
      → canonicalize_controller_query_terms pool rules proposed_terms ≡ ok terms
      → IsAccepted pool rules terms
  unfolding canonicalize_controller_query_terms
  canonicalize-IsAccepted pool rules proposed_terms terms h = accepted.at terms h
    where
      accepted :
          OnOk
            (IsAccepted pool rules)
            (canonicalize_controller_query_terms pool rules proposed_terms)
      accepted = OnOk-then (IsAccepted pool rules) _ _ λ _ _.
          OnOk-then (IsAccepted pool rules) _ _ λ _ _.
            OnOk-then (IsAccepted pool rules) _ _ λ _ few.
              OnOk-then (IsAccepted pool rules) _ _ λ candidates found.
                let (pooled, len) =
                  pool_candidates-IsPooled pool (unique_strings (normalized_terms proposed_terms))
                    candidates (found_all-eq _ found) in
                check_candidates-IsAccepted pool rules candidates pooled
                  (ground (arith, len, refuse-ok _ _ few))
