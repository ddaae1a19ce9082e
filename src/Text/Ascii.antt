-- ===== src/Text/Ascii.antt =====
-- A table that folds the letters of ASCII, for examples.
use cv_match.Text.{Unicode}
use cv_match.Common.{ℕ, [], ◌∷◌, ◌+◌, leb, ◌&&◌, if◌then◌else◌}

abbrev fold_letter : ℕ → ℕ
fold_letter c = if leb 65 c && leb c 90 then c + 32 else c

instance unfoldable pub ascii : Unicode
ascii = record { fold = λ c. fold_letter c ∷ [] }
