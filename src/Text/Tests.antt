-- ===== src/Text/Tests.antt =====
-- Terms with white space and capitals.
use cv_match.Text.Ascii.{ascii}
use cv_match.Text.{
  normalize_term, Text, strip, lstrip, rstrip, unique_strings, split, is_space, scan, casefold,
  join,
}
use cv_match.Common.{◌≡◌, All, ◌∷◌, [], Distinct, any, true, refl}
use cv_match.Text.Words.{normalize_term_idem}
use cv_match.Text.Unique.{IsClean, same_key, unique_strings_lem, unique_strings_complete}

-- "  Go  dev "
abbrev padded : Text
padded = 32 ∷ 32 ∷ 71 ∷ 111 ∷ 32 ∷ 32 ∷ 100 ∷ 101 ∷ 118 ∷ 32 ∷ []

-- "go DEV"
abbrev plain : Text
plain = 103 ∷ 111 ∷ 32 ∷ 68 ∷ 69 ∷ 86 ∷ []

normalize-padded : casefold (normalize_term padded) ≡ casefold plain
unfolding normalize_term strip lstrip rstrip split scan join is_space casefold ascii
normalize-padded = refl

padded_twice : normalize_term (normalize_term padded) ≡ normalize_term padded
padded_twice = normalize_term_idem padded

unique_strings_lem_example :
    All IsClean (unique_strings (padded ∷ plain ∷ []))
    × Distinct same_key (unique_strings (padded ∷ plain ∷ []))
    × (unique_strings (unique_strings (padded ∷ plain ∷ [])) ≡ unique_strings (padded ∷ plain ∷ []))
unique_strings_lem_example = unique_strings_lem (padded ∷ plain ∷ [])

unique_strings_complete_example : any (same_key plain) (unique_strings (plain ∷ padded ∷ [])) ≡ true
unfolding strip lstrip rstrip is_space casefold ascii
unique_strings_complete_example = unique_strings_complete (plain ∷ padded ∷ []) plain refl
