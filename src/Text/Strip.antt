-- ===== src/Text/Strip.antt =====
-- Removing the white space at the ends of a text, and the comparison of texts.
use cv_match.Text.{Text, lstrip, rstrip, strip, text_eq, is_space}
use cv_match.Common.{
  ◌≡◌, ◌∷◌, ap, true, arith, Bool-cases, Bool, ◌∙◌, ◌↔◌, refl, inl, [], inr, false, ℕ, sym,
}

lstrip_idem : (s : Text) → lstrip (lstrip s) ≡ lstrip s
unfolding lstrip
lstrip_idem [] = refl
lstrip_idem (c ∷ s) = elim (Bool-cases (is_space c)) [
  | inl h ↦ rw h (lstrip_idem s)
  | inr h ↦ rw h (rw h)
]

rstrip_space :
    (c : ℕ) (s : Text) (d : ℕ) (r : Text)
    → is_space c ≡ true
    → rstrip s ≡ d ∷ r
    → rstrip (c ∷ s) ≡ c ∷ d ∷ r
unfolding rstrip
rstrip_space c s d r h e = rw (h, e)

rstrip_letter : (c : ℕ) (s : Text) → is_space c ≡ false → rstrip (c ∷ s) ≡ c ∷ rstrip s
unfolding rstrip
rstrip_letter c s h = rw h

rstrip_idem : (s : Text) → rstrip (rstrip s) ≡ rstrip s
unfolding rstrip
rstrip_idem [] = refl
rstrip_idem (c ∷ s) = cases (is_space c) (rstrip s) refl refl (rstrip_idem s)
  where
    cases :
        (b : Bool) (r : Text)
        → is_space c ≡ b
        → rstrip s ≡ r
        → rstrip (rstrip s) ≡ rstrip s
        → rstrip (rstrip (c ∷ s)) ≡ rstrip (c ∷ s)
    cases true [] hb hr ih = rw (hb, hr)
    cases true (d ∷ r) hb hr ih =
        let e = rstrip_space c s d r hb hr in
        ap rstrip e ∙ rstrip_space c (d ∷ r) d r hb (rw hr at ih) ∙ sym e
    cases false r hb hr ih =
        let e = rstrip_letter c s hb in
        ap rstrip e ∙ rstrip_letter c (rstrip s) hb ∙ ap (◌∷◌ c) ih ∙ sym e

lstrip-rstrip : (s : Text) → lstrip (rstrip s) ≡ rstrip (lstrip s)
unfolding lstrip rstrip
lstrip-rstrip [] = refl
lstrip-rstrip (c ∷ s) = cases (is_space c) (rstrip s) refl refl (lstrip-rstrip s)
  where
    cases :
        (b : Bool) (r : Text)
        → is_space c ≡ b
        → rstrip s ≡ r
        → lstrip (rstrip s) ≡ rstrip (lstrip s)
        → lstrip (rstrip (c ∷ s)) ≡ rstrip (lstrip (c ∷ s))
    cases true [] hb hr ih = rw (hb, hr, ← ih, hr)
    cases true (d ∷ r) hb hr ih = rw (hb, hr, ← ih, hr) (rw hb)
    cases false r hb hr ih = rw (hb, hr) (rw hb)

-- `strip` leaves nothing for a second `strip`.
pub strip_idem : (s : Text) → strip (strip s) ≡ strip s
unfolding strip
strip_idem s =
    ap rstrip (lstrip-rstrip (lstrip s) ∙ ap rstrip (lstrip_idem s)) ∙ rstrip_idem (lstrip s)

pub text_eq_iff : (s t : Text) → (text_eq s t ≡ true) ↔ (s ≡ t)
text_eq_iff [] [] = (λ _. refl, λ _. refl)
text_eq_iff [] (d ∷ t) = ground arith
text_eq_iff (c ∷ s) [] = ground arith
text_eq_iff (c ∷ s) (d ∷ t) = ground (arith, text_eq_iff s t)

pub text_eq_refl : (s : Text) → text_eq s s ≡ true
text_eq_refl s = (text_eq_iff s s).1 refl

pub text_eq_comm : (s t : Text) → text_eq s t ≡ text_eq t s
text_eq_comm s t = ground (arith, text_eq_iff s t, text_eq_iff t s)
