-- ===== src/Text/Words.antt =====
-- Splitting a text into words and joining them again.
use cv_match.Text.{
  Text, is_blank, scan, split, join, is_space, push, lstrip, rstrip, strip, normalize_term,
}
use cv_match.Common.{
  All, List, ◌≡◌, ◌∷◌, ◌++◌, false, Bool-cases, [], inl, refl, inr, append-nil, Bool, ap, ◌∙◌, true,
}

abbrev IsLetters : Text → Type 0
IsLetters w = All (λ c. is_space c ≡ false) w

-- A word: not empty, and without white space.
abbrev pub IsWord : Text → Type 0
IsWord w = IsLetters w × (is_blank w ≡ false)

push-All : (w : Text) (ws : List Text) → IsLetters w → All IsWord ws → All IsWord (push w ws)
push-All [] ws hw hs = hs
push-All (c ∷ w) ws hw hs = ((hw, refl), hs)

scan-All : (s : Text) → IsLetters (scan s).0 × All IsWord (scan s).1
unfolding scan
scan-All [] = (tt, tt)
scan-All (c ∷ s) = elim (Bool-cases (is_space c)) [
  | inl h ↦ rw h (tt, push-All (scan s).0 (scan s).1 (scan-All s).0 (scan-All s).1)
  | inr h ↦ rw h ((h, (scan-All s).0), (scan-All s).1)
]

-- `split` returns words.
pub split-All : (s : Text) → All IsWord (split s)
unfolding split
split-All s = push-All (scan s).0 (scan s).1 (scan-All s).0 (scan-All s).1

push-word : (w : Text) (ws : List Text) → is_blank w ≡ false → push w ws ≡ w ∷ ws
push-word [] ws h = cc
push-word (c ∷ w) ws h = refl

scan-word : (w s : Text) → IsLetters w → scan (w ++ s) ≡ (w ++ (scan s).0, (scan s).1)
unfolding scan
scan-word [] s h = refl
scan-word (c ∷ w) s h = rw (h.0, scan-word w s h.1)

scan-word_alone : (w : Text) → IsLetters w → scan w ≡ (w, [])
unfolding scan
scan-word_alone [] h = refl
scan-word_alone (c ∷ w) h = rw (h.0, scan-word_alone w h.1)

scan-space : (s : Text) → scan (32 ∷ s) ≡ ([], split s)
unfolding scan split is_space
scan-space s = refl

split-word : (w s : Text) → IsWord w → split (w ++ (32 ∷ s)) ≡ w ∷ split s
unfolding split
split-word w s h =
    rw (scan-word w (32 ∷ s) h.0, scan-space s, append-nil) (push-word w (split s) h.1)

split-word_alone : (w : Text) → IsWord w → split w ≡ w ∷ []
unfolding split
split-word_alone w h = rw (scan-word_alone w h.0) (push-word w [] h.1)

-- Words that are joined and split again come back.
pub split-join : (ws : List Text) → All IsWord ws → split (join ws) ≡ ws
unfolding join
split-join [] h = unfold split scan in refl
split-join (w ∷ []) h = split-word_alone w h.0
split-join (w ∷ v ∷ ws) h = split-word w (join (v ∷ ws)) h.0 ∙ ap (◌∷◌ w) (split-join (v ∷ ws) h.1)

split-lstrip : (s : Text) → split (lstrip s) ≡ split s
unfolding split lstrip scan
split-lstrip [] = refl
split-lstrip (c ∷ s) = elim (Bool-cases (is_space c)) [
  | inl h ↦ rw h (split-lstrip s)
  | inr h ↦ rw h (rw h)
]

scan-rstrip : (s : Text) → scan (rstrip s) ≡ scan s
unfolding rstrip scan
scan-rstrip [] = refl
scan-rstrip (c ∷ s) = cases (is_space c) (rstrip s) refl refl (scan-rstrip s)
  where
    cases :
        (b : Bool) (r : Text)
        → is_space c ≡ b
        → rstrip s ≡ r
        → scan (rstrip s) ≡ scan s
        → scan (rstrip (c ∷ s)) ≡ scan (c ∷ s)
    cases true [] hb hr ih = rw (hb, hr, ← ih, hr)
    cases true (d ∷ r) hb hr ih = rw (hb, hr, ← ih, hr) (rw hb)
    cases false r hb hr ih = rw (hb, ← ih) (rw hb)

-- `strip` before `split` changes nothing.
pub split-strip : (s : Text) → split (strip s) ≡ split s
unfolding strip
split-strip s = split-rstrip (lstrip s) ∙ split-lstrip s
  where
    split-rstrip : (t : Text) → split (rstrip t) ≡ split t
    split-rstrip t = unfold split in ap (λ p. push p.0 p.1) (scan-rstrip t)

-- A normalised term is words with one space between them, so normalising again changes nothing.
pub normalize_term_idem : (s : Text) → normalize_term (normalize_term s) ≡ normalize_term s
unfolding normalize_term
normalize_term_idem s =
    ap join
      (split-strip (join (split (strip s))) ∙ split-join (split (strip s)) (split-All (strip s)))
