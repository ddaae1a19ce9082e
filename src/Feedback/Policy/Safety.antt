-- ===== src/Feedback/Policy/Safety.antt =====
-- An expression that the policy accepts is safe.
use cv_match.Feedback.Policy.{
  build_prf_policy_decision, GateInput, Expression, is_responsibility, add_reason, is_company,
  reasons_for, has_strengths_only_grounding, reason_negative, reason_support, reason_tried,
  reason_summary, reason_company, reason_responsibility, evaluate_expression,
  evaluate_candidate_expressions, is_safe, accept_first, normalize_reject_reasons, rename_reason,
  reason_company_entity, reason_tried_term_family,
}
use cv_match.Common.Floats.{Floats}
use cv_match.Common.{
  ℕ, if◌then◌else◌, List, Bool, ◌≡◌, All, ◌++◌, true, ◌∷◌, false, [], Bool-cases, inl, subst, ◌≤◌,
  sym, not, inr, arith, refl, find, ok, Option, ltb, map, some, ap, ok-injective, none, ◌∙◌,
  append_assoc, All-append,
}
use cv_match.Text.{
  Unicode, Text, mem_text, is_blank, strip, unique_strings, text_eq, lstrip, rstrip, is_space,
}
use cv_match.Text.Unique.{All-blank_of_none, IsClean, unique_strings_lem}
use cv_match.Text.Strip.{text_eq_iff}
use cv_match.QueryPlan.Canonical.{is_empty_list}

abbrev pub AreBlank : List Text → Type 0
AreBlank ts = All (λ t. is_blank (strip t) ≡ true) ts

blank-last : (ts : List Text) (r : Text) → AreBlank (ts ++ r ∷ []) → is_blank (strip r) ≡ true
blank-last [] r h = h.0
blank-last (t ∷ ts) r h = blank-last ts r h.1

blank-member :
    (ts : List Text) (r : Text) → AreBlank ts → mem_text r ts ≡ true → is_blank (strip r) ≡ true
blank-member [] r h m = cc
blank-member (t ∷ ts) r h m = elim (Bool-cases (text_eq r t)) [
  | inl e ↦ subst (λ x. is_blank (strip x) ≡ true) (sym ((text_eq_iff r t).0 e)) h.0
  | inr e ↦ blank-member ts r h.1 (ground arith)
]

clash : {b : Bool} → b ≡ true → b ≡ false → ⊥
clash h k = cc

-- A test that would have added a reason did not hold, where only blank reasons are left.
add_reason-blank :
    (test : Bool) (r : Text) (ts : List Text)
    → is_blank (strip r) ≡ false
    → AreBlank (add_reason test r ts)
    → (test ≡ false) × AreBlank ts
add_reason-blank false r ts word h = (refl, h)
add_reason-blank true r ts word h = elim (Bool-cases (mem_text r ts)) [
  | inl m ↦ absurd (
      clash (blank-member ts r (subst (λ b. AreBlank (if not b then ts ++ r ∷ [] else ts)) m h) m)
        word)
  | inr m ↦ absurd (
      clash (blank-last ts r (subst (λ b. AreBlank (if not b then ts ++ r ∷ [] else ts)) m h)) word)
]

module _ (f : Floats) where
  -- What the tests of the policy ask of an expression
  pub record IsSafe (tried : List Text) (min_seeds : ℕ) (max_rate : f.Float) (e : Expression f)
      : Type 0 where
    pub no_responsibility : is_responsibility e.candidate_term_type ≡ false
    pub no_company : is_company e.candidate_term_type ≡ false
    pub grounded : has_strengths_only_grounding e.field_hits ≡ false
    pub untried : mem_text e.term_family_id tried ≡ false
    pub supported : min_seeds ≤ e.positive_seed_support_count
    pub low_rate : f.float_le max_rate e.not_fit_support_rate ≡ false
    pub none_inherited : AreBlank e.reject_reasons

  module _ ⦃u : Unicode⦄ where
    -- The reasons that an expression comes with are kept, so none is left only if all are blank.
    renamed-blank :
        (r : Text) → is_blank (strip (rename_reason r)) ≡ true → is_blank (strip r) ≡ true
    unfolding strip lstrip rstrip is_space
    renamed-blank r h = elim (Bool-cases (text_eq r reason_company_entity)) [
      | inl e ↦ let h' = rw e at h in absurd (ground arith)
      | inr e ↦
          let h' = rw e at h in
          elim (Bool-cases (text_eq r reason_tried_term_family)) [
            | inl t ↦ let k = rw t at h' in absurd (ground arith)
            | inr t ↦ rw t at h'
          ]
    ]

    renamed_all : (rs : List Text) → AreBlank (map rename_reason rs) → AreBlank rs
    renamed_all [] h = tt
    renamed_all (r ∷ rs) h = (renamed-blank r h.0, renamed_all rs h.1)

    clean_none : (ts : List Text) → All IsClean ts → AreBlank ts → ts ≡ []
    clean_none [] clean blank = refl
    clean_none (t ∷ ts) clean blank =
        absurd (clash (subst (λ x. is_blank x ≡ true) clean.0.0 blank.0) clean.0.1)

    inherited_blank : (rs : List Text) → AreBlank (normalize_reject_reasons f rs) → AreBlank rs
    inherited_blank rs h = renamed_all rs (
        All-blank_of_none (map rename_reason rs) (
          clean_none (unique_strings (map rename_reason rs))
            (unique_strings_lem (map rename_reason rs)).0 h))

    evaluated-IsSafe :
        (input : GateInput f) (e : Expression f)
        → unique_strings (reasons_for f input e) ≡ []
        → IsSafe
            (unique_strings input.tried_term_family_ids)
            input.min_seed_count
            input.max_negative_support_rate
            e
    unfolding strip lstrip rstrip is_space
    evaluated-IsSafe input e h =
        let (rate, r1) =
          add_reason-blank is_negative reason_negative s5 refl
            (All-blank_of_none (reasons_for f input e) h) in
        let (support, r2) = add_reason-blank is_weak reason_support s4 refl r1 in
        let (family, r3) = add_reason-blank is_tried reason_tried s3 refl r2 in
        let (strengths_only, r4) =
          add_reason-blank (has_strengths_only_grounding e.field_hits) reason_summary s2 refl r3 in
        let (company, r5) =
          add_reason-blank (is_company e.candidate_term_type) reason_company s1 refl r4 in
        let (responsible, r6) =
          add_reason-blank (is_responsibility e.candidate_term_type) reason_responsibility
            (normalize_reject_reasons f e.reject_reasons) refl r5 in
        record {
          no_responsibility = responsible;
          no_company = company;
          grounded = strengths_only;
          untried = family;
          supported = ground (arith, support);
          low_rate = rate;
          none_inherited = inherited_blank e.reject_reasons r6;
        }
      where
        is_negative : Bool
        is_negative = f.float_le input.max_negative_support_rate e.not_fit_support_rate

        is_weak : Bool
        is_weak = ltb e.positive_seed_support_count input.min_seed_count

        is_tried : Bool
        is_tried = mem_text e.term_family_id (unique_strings input.tried_term_family_ids)

        s1 : List Text
        s1 =
            add_reason (is_responsibility e.candidate_term_type) reason_responsibility
              (normalize_reject_reasons f e.reject_reasons)

        s2 : List Text
        s2 = add_reason (is_company e.candidate_term_type) reason_company s1

        s3 : List Text
        s3 = add_reason (has_strengths_only_grounding e.field_hits) reason_summary s2

        s4 : List Text
        s4 = add_reason is_tried reason_tried s3

        s5 : List Text
        s5 = add_reason is_weak reason_support s4

    empty-eq : (ts : List Text) → is_empty_list ts ≡ true → ts ≡ []
    empty-eq [] h = refl
    empty-eq (t ∷ ts) h = cc

    safe-none :
        (input : GateInput f) (x : Expression f)
        → is_safe f (evaluate_expression f input x) ≡ true
        → unique_strings (reasons_for f input x) ≡ []
    unfolding evaluate_expression
    safe-none input x h = empty-eq (unique_strings (reasons_for f input x)) h

    -- The accepted expression is the first whose evaluation leaves no reason.
    pub record IsFirstSafe (input : GateInput f) (e : Expression f) : Type 0 where
      pub source : Expression f
      pub before : List (Expression f)
      pub after : List (Expression f)
      pub split : input.candidate_expressions ≡ before ++ source ∷ after
      pub refused : All (λ x. is_safe f (evaluate_expression f input x) ≡ false) before
      pub evaluated : e ≡ evaluate_expression f input source
      pub passes :
          IsSafe
            (unique_strings input.tried_term_family_ids)
            input.min_seed_count
            input.max_negative_support_rate
            source

    some-eq : {a b : Expression f} → some a ≡ some b → a ≡ b
    some-eq h = cc

    find-IsFirstSafe :
        (input : GateInput f) (before es : List (Expression f)) (e : Expression f)
        → input.candidate_expressions ≡ before ++ es
        → All (λ x. is_safe f (evaluate_expression f input x) ≡ false) before
        → find (is_safe f) (map (evaluate_expression f input) es) ≡ some e
        → IsFirstSafe input e
    find-IsFirstSafe input before [] e split refused h = absurd (ground arith)
    find-IsFirstSafe input before (x ∷ es) e split refused h =
        elim (Bool-cases (is_safe f (evaluate_expression f input x))) [
          | inl t ↦
              let h' = rw t at h in
              record {
                source = x;
                before = before;
                after = es;
                split = split;
                refused = refused;
                evaluated = sym (some-eq h');
                passes = evaluated-IsSafe input x (safe-none input x t);
              }
          | inr n ↦
              let h' = rw n at h in
              find-IsFirstSafe input (before ++ x ∷ []) es e
                (split ∙ sym (append_assoc before (x ∷ []) es))
                (All-append _ before (x ∷ []) refused (n, tt)) h'
        ]

    -- An expression is accepted only with enough seeds. It is the first, in the order given, that
    -- passes every test: it came without a reason to reject it that is not blank, names no company and no
    -- responsibility, does not rest on the strengths alone, is of none of the families that
    -- `unique_strings` leaves of the tried ones, has the support of enough seeds, and a rate of
    -- negative support below the limit. Each one before it is left with a reason.
    pub accepted-IsSafe :
        (input : GateInput f) (e : Expression f)
        → build_prf_policy_decision f input ≡ ok e
        → (input.min_seed_count ≤ input.seed_count) × IsFirstSafe input e
    unfolding build_prf_policy_decision evaluate_candidate_expressions
    accepted-IsSafe input e h = elim (Bool-cases (ltb input.seed_count input.min_seed_count)) [
      | inl few ↦ let h' = rw few at h in absurd (ground arith)
      | inr enough ↦
          let h' = rw enough at h in
          (
            ground arith,
            find-IsFirstSafe input [] input.candidate_expressions e refl tt (accepted _ h'),
          )
    ]
      where
        accepted : (o : Option (Expression f)) → accept_first f o ≡ ok e → o ≡ some e
        accepted none k = cc
        accepted (some x) k = ap some (ok-injective k)
