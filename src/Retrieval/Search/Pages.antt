-- ===== src/Retrieval/Search/Pages.antt =====
-- The pages that a search requests: one after the other from the first.
use cv_match.Retrieval.Search.{SearchAttempt}
use cv_match.Common.{
  ℕ, zero, ◌+◌, List, ◌++◌, [], map, Option, ◌∷◌, ◌≡◌, suc, none, ap, some, arith, refl, ◌∙◌,
}

abbrev pub pages_from : ℕ → ℕ → List ℕ
pages_from page zero = []
pages_from page (suc n) = page ∷ pages_from (suc page) n

abbrev pub requested_pages : List SearchAttempt → List ℕ
requested_pages attempts = map (λ a. a.requested_page) attempts

abbrev pub last_page : List SearchAttempt → Option ℕ
last_page [] = none
last_page (a ∷ []) = some a.requested_page
last_page (a ∷ b ∷ attempts) = last_page (b ∷ attempts)

pub requested-snoc :
    (attempts : List SearchAttempt) (a : SearchAttempt)
    → requested_pages (attempts ++ a ∷ []) ≡ requested_pages attempts ++ a.requested_page ∷ []
requested-snoc [] a = refl
requested-snoc (b ∷ attempts) a = ap (◌∷◌ b.requested_page) (requested-snoc attempts a)

pub pages-snoc : (page n : ℕ) → pages_from page n ++ (page + n) ∷ [] ≡ pages_from page (suc n)
pages-snoc page zero = ap (λ k. k ∷ []) (omega arith)
pages-snoc page (suc n) =
    ap (λ k. page ∷ (pages_from (suc page) n ++ k ∷ [])) (shift page n)
    ∙ ap (◌∷◌ page) (pages-snoc (suc page) n)
  where
    shift : (p m : ℕ) → p + suc m ≡ suc p + m
    shift p m = omega arith

-- The last page that was requested, where there is one
pub last-page :
    (attempts : List SearchAttempt) (page n : ℕ)
    → requested_pages attempts ≡ pages_from page (suc n)
    → last_page attempts ≡ some (page + n)
last-page [] page n h = cc
last-page (a ∷ []) page zero h = ap some (head h ∙ omega arith)
  where
    head : {x y : ℕ} {xs ys : List ℕ} → x ∷ xs ≡ y ∷ ys → x ≡ y
    head h = cc
last-page (a ∷ []) page (suc n) h = cc
last-page (a ∷ b ∷ attempts) page zero h = cc
last-page (a ∷ b ∷ attempts) page (suc n) h =
    last-page (b ∷ attempts) (suc page) n (tail h) ∙ ap some (omega arith)
  where
    tail : {x y : ℕ} {xs ys : List ℕ} → x ∷ xs ≡ y ∷ ys → xs ≡ ys
    tail h = cc
