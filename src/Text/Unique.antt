-- ===== src/Text/Unique.antt =====
-- `unique_strings` of models.py: what it returns.
use cv_match.Text.{
  Text, strip, Unicode, unique_from, unique_strings, is_blank, text_eq, mem_text, casefold,
}
use cv_match.Common.{
  if◌then◌else◌, ◌≡◌, Bool, List, All, Distinct, any, false, ◌∷◌, [], ◌&&◌, Bool-cases, arith, not,
  refl, inl, true, inr, ap, ◌||◌, All-map, subst,
}
use cv_match.Text.Strip.{text_eq_comm, strip_idem, text_eq_iff}

-- A value as `unique_strings` returns it: stripped, and not blank.
abbrev pub IsClean : Text → Type 0
IsClean s = (strip s ≡ s) × (is_blank s ≡ false)

module _ ⦃u : Unicode⦄ where
  -- The same key: equal but for case.
  abbrev pub same_key : Text → Text → Bool
  same_key s t = text_eq (casefold s) (casefold t)

  abbrev IsNew : List Text → Text → Type 0
  IsNew seen s = mem_text (casefold s) seen ≡ false

  unique_from-IsNew : (seen values : List Text) → All (IsNew seen) (unique_from seen values)
  unfolding unique_from
  unique_from-IsNew seen [] = tt
  unique_from-IsNew seen (value ∷ values) = elim (Bool-cases (is_blank (strip value))) [
    | inl blank ↦ rw blank (unique_from-IsNew seen values)
    | inr clean ↦ elim (Bool-cases (mem_text (casefold (strip value)) seen)) [
      | inl old ↦ rw (clean, old) (unique_from-IsNew seen values)
      | inr new ↦
          rw (clean, new)
            (
              new,
              All-map (unique_from (casefold (strip value) ∷ seen) values) (λ s h. ground arith)
                  (unique_from-IsNew (casefold (strip value) ∷ seen) values),
            )
    ]
  ]

  unique_from-IsClean : (seen values : List Text) → All IsClean (unique_from seen values)
  unfolding unique_from
  unique_from-IsClean seen [] = tt
  unique_from-IsClean seen (value ∷ values) = elim (Bool-cases (is_blank (strip value))) [
    | inl blank ↦ rw blank (unique_from-IsClean seen values)
    | inr clean ↦ elim (Bool-cases (mem_text (casefold (strip value)) seen)) [
      | inl old ↦ rw (clean, old) (unique_from-IsClean seen values)
      | inr new ↦
          rw (clean, new)
            ((strip_idem value, clean), unique_from-IsClean (casefold (strip value) ∷ seen) values)
    ]
  ]

  apart :
      (s : Text) (seen ts : List Text)
      → All (IsNew (casefold s ∷ seen)) ts
      → any (same_key s) ts ≡ false
  apart s seen [] h = refl
  apart s seen (t ∷ ts) h =
      ground (arith, apart s seen ts h.1, text_eq_comm (casefold s) (casefold t), h.0)

  unique_from-Distinct : (seen values : List Text) → Distinct same_key (unique_from seen values)
  unfolding unique_from
  unique_from-Distinct seen [] = tt
  unique_from-Distinct seen (value ∷ values) = elim (Bool-cases (is_blank (strip value))) [
    | inl blank ↦ rw blank (unique_from-Distinct seen values)
    | inr clean ↦ elim (Bool-cases (mem_text (casefold (strip value)) seen)) [
      | inl old ↦ rw (clean, old) (unique_from-Distinct seen values)
      | inr new ↦
          rw (clean, new)
            (
              apart (strip value) seen _ (unique_from-IsNew (casefold (strip value) ∷ seen) values),
              unique_from-Distinct (casefold (strip value) ∷ seen) values,
            )
    ]
  ]

  -- Clean values with keys of their own pass unchanged.
  unique_from_clean :
      (seen values : List Text)
      → All IsClean values
      → All (IsNew seen) values
      → Distinct same_key values
      → unique_from seen values ≡ values
  unfolding unique_from
  unique_from_clean seen [] c n d = refl
  unique_from_clean seen (v ∷ vs) c n d =
      rw (c.0.0, c.0.1, n.0)
        (ap (◌∷◌ v) (unique_from_clean (casefold v ∷ seen) vs c.1 (grow vs n.1 d.0) d.1))
    where
      grow :
          (ts : List Text)
          → All (IsNew seen) ts
          → any (same_key v) ts ≡ false
          → All (IsNew (casefold v ∷ seen)) ts
      grow [] n d = tt
      grow (t ∷ ts) n d =
          (ground (arith, text_eq_comm (casefold v) (casefold t), n.0), grow ts n.1 (ground arith))

  no_keys : (ts : List Text) → All (IsNew []) ts
  no_keys [] = tt
  no_keys (t ∷ ts) = (refl, no_keys ts)

  -- Every value of the result is stripped and not blank, no two are equal but for case, and a
  -- second pass over the result changes nothing.
  pub unique_strings_lem :
      (values : List Text)
      → All IsClean (unique_strings values)
        × Distinct same_key (unique_strings values)
        × (unique_strings (unique_strings values) ≡ unique_strings values)
  unfolding unique_strings
  unique_strings_lem values = (
    unique_from-IsClean [] values,
    unique_from-Distinct [] values,
    unique_from_clean [] (unique_from [] values) (unique_from-IsClean [] values) (no_keys _)
        (unique_from-Distinct [] values),
  )

  -- Only blank values leave nothing.
  pub All-blank_of_none :
      (values : List Text)
      → unique_strings values ≡ []
      → All (λ v. is_blank (strip v) ≡ true) values
  unfolding unique_strings unique_from
  All-blank_of_none [] h = tt
  All-blank_of_none (v ∷ vs) h = elim (Bool-cases (is_blank (strip v))) [
    | inl blank ↦ (
      blank,
      All-blank_of_none vs (
          subst
            (λ b.
              (if b then unique_from [] vs else strip v ∷ unique_from (casefold (strip v) ∷ []) vs)
              ≡ [])
            blank h),
    )
    | inr clean ↦ absurd (
        distinct (
          subst
            (λ b.
              (if b then unique_from [] vs else strip v ∷ unique_from (casefold (strip v) ∷ []) vs)
              ≡ [])
            clean h))
  ]
    where
      distinct : {t : Text} {ts : List Text} → t ∷ ts ≡ [] → ⊥
      distinct h = cc

  unique_from_complete :
      (seen values : List Text) (v : Text)
      → any (λ w. same_key v (strip w) && not (is_blank (strip w))) values ≡ true
      → (mem_text (casefold v) seen || any (same_key v) (unique_from seen values)) ≡ true
  unfolding unique_from
  unique_from_complete seen [] v h = ground arith
  unique_from_complete seen (w ∷ ws) v h = ground (
    arith,
    text_eq_iff (casefold v) (casefold (strip w)),
    unique_from_complete seen ws v,
    unique_from_complete (casefold (strip w) ∷ seen) ws v,
  )

  -- No value is lost: a text that is equal but for case to some stripped, not blank value is equal
  -- but for case to some value of the result.
  pub unique_strings_complete :
      (values : List Text) (v : Text)
      → any (λ w. same_key v (strip w) && not (is_blank (strip w))) values ≡ true
      → any (same_key v) (unique_strings values) ≡ true
  unfolding unique_strings
  unique_strings_complete values v h = unique_from_complete [] values v h
