-- ===== src/Text.antt =====
-- Python's `str` as the list of its code points, and the methods that the program calls on it:
-- `strip`, `split` without an argument, `join` with a space, `casefold`, comparison.
--
-- `casefold` maps every code point by the full case folding of the Unicode Character Database, a
-- table of data that is no part of the program: a parameter here, so what is shown holds for
-- every version of the table.
pub mod Words
pub mod Strip
pub mod Unique
pub mod Ascii
mod Tests
use cv_match.Common.{
  ℕ, Bool, true, false, ◌&&◌, ◌||◌, List, [], ◌∷◌, ◌++◌, leb, ltb, ◌==◌, if◌then◌else◌,
}

abbrev pub Text : Type 0
Text = List ℕ

pub record Unicode : Type 0 where
  pub fold : ℕ → Text

-- the white space of `str.strip` and `str.split`
unfoldable pub is_space : ℕ → Bool
is_space c =
    (leb 9 c && leb c 13)
    || ((leb 28 c && leb c 32)
        || (c == 133
            || (c == 160
                || (c == 5760
                    || ((leb 8192 c && leb c 8202)
                        || (c == 8232
                            || (c == 8233 || (c == 8239 || (c == 8287 || c == 12288)))))))))

abbrev pub is_blank : Text → Bool
is_blank [] = true
is_blank (c ∷ s) = false

unfoldable pub lstrip : Text → Text
lstrip [] = []
lstrip (c ∷ s) = if is_space c then lstrip s else c ∷ s

unfoldable pub rstrip : Text → Text
rstrip [] = []
rstrip (c ∷ s) = let rest = rstrip s in if is_space c && is_blank rest then [] else c ∷ rest

unfoldable pub strip : Text → Text
strip s = rstrip (lstrip s)

-- The word that a text begins with, and the words behind it.
abbrev pub push : Text → List Text → List Text
push [] ws = ws
push (c ∷ w) ws = (c ∷ w) ∷ ws

unfoldable pub scan : Text → Text × List Text
scan [] = ([], [])
scan (c ∷ s) = let (w, ws) = scan s in if is_space c then ([], push w ws) else (c ∷ w, ws)

unfoldable pub split : Text → List Text
split s = let (w, ws) = scan s in push w ws

-- `" ".join(words)`
unfoldable pub join : List Text → Text
join [] = []
join (w ∷ []) = w
join (w ∷ v ∷ ws) = w ++ (32 ∷ join (v ∷ ws))

-- `" ".join(value.strip().split())`
unfoldable pub normalize_term : Text → Text
normalize_term s = join (split (strip s))

unfoldable pub casefold : ⦃u : Unicode⦄ → Text → Text
casefold ⦃u⦄ [] = []
casefold ⦃u⦄ (c ∷ s) = u.fold c ++ casefold s

abbrev pub text_eq : Text → Text → Bool
text_eq [] [] = true
text_eq [] (d ∷ t) = false
text_eq (c ∷ s) [] = false
text_eq (c ∷ s) (d ∷ t) = c == d && text_eq s t

abbrev pub mem_text : Text → List Text → Bool
mem_text s [] = false
mem_text s (t ∷ ts) = text_eq s t || mem_text s ts

-- Python compares two `str` by their code points.
abbrev pub text_ltb : Text → Text → Bool
text_ltb [] [] = false
text_ltb [] (d ∷ t) = true
text_ltb (c ∷ s) [] = false
text_ltb (c ∷ s) (d ∷ t) = if ltb c d then true else if c == d then text_ltb s t else false

-- `unique_strings`: the loop over the values, with the keys that it has seen.
unfoldable pub unique_from : ⦃u : Unicode⦄ → List Text → List Text → List Text
unique_from seen [] = []
unique_from seen (value ∷ values) =
    let clean = strip value in
    let key = casefold clean in
    let skip = unique_from seen values in
    let keep = clean ∷ unique_from (key ∷ seen) values in
    if is_blank clean then skip else if mem_text key seen then skip else keep

unfoldable pub unique_strings : ⦃u : Unicode⦄ → List Text → List Text
unique_strings values = unique_from [] values
