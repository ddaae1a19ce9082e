-- ===== src/Retrieval/Fetches/Scans.antt =====
-- What the loop over the candidates of one fetch adds.
use cv_match.Retrieval.Fetches.{scan_candidates, Candidate, mem_key}
use cv_match.Common.{
  ℕ, str_eq, str_eq_iff, String, List, ◌≡◌, Bool, false, All, length, true, ◌∷◌, Distinct, ◌+◌,
  Bool-cases, any, ◌≤◌, inl, arith, ◌∙◌, suc, [], sym, inr, ap, refl,
}

-- Two candidates with one key
abbrev pub same_key : Candidate → Candidate → Bool
same_key c d = str_eq c.dedup_key d.dedup_key

abbrev pub key_in : List String → Candidate → Bool
key_in keys c = mem_key c.dedup_key keys

abbrev pub id_in : List String → Candidate → Bool
id_in ids c = mem_key c.resume_id ids

-- The keys and identifiers of a batch: none was seen before, and none occurs twice.
abbrev pub IsUnseen : List String → List String → Candidate → Type 0
IsUnseen ids keys c = (key_in keys c ≡ false) × (id_in ids c ≡ false)

str_eq_comm : (s t : String) → str_eq s t ≡ str_eq t s
str_eq_comm s t = elim (Bool-cases (str_eq s t)) [
  | inl e ↦ e ∙ sym ((str_eq_iff t s).1 (sym ((str_eq_iff s t).0 e)))
  | inr n ↦ elim (Bool-cases (str_eq t s)) [
    | inl e ↦ absurd (differ ((str_eq_iff s t).1 (sym ((str_eq_iff t s).0 e))) n)
    | inr m ↦ n ∙ sym m
  ]
]
  where
    differ : {b : Bool} → b ≡ true → b ≡ false → ⊥
    differ h k = cc

pub same_key_comm : (c d : Candidate) → same_key c d ≡ same_key d c
same_key_comm c d = str_eq_comm c.dedup_key d.dedup_key

apart :
    (ids keys : List String) (c : Candidate) (cs : List Candidate)
    → All (IsUnseen ids (c.dedup_key ∷ keys)) cs
    → All (IsUnseen ids keys) cs × (any (same_key c) cs ≡ false)
apart ids keys c [] h = (tt, refl)
apart ids keys c (d ∷ cs) h =
    let (rest, away) = apart ids keys c cs h.1 in
    (((ground arith, h.0.1), rest), ground (arith, h.0.0, away, same_key_comm c d))

-- The fresh candidates are unseen and differ in their keys, and all their keys are kept.
pub scan-fresh :
    (ids : List String) (page fetch_no sequence rank : ℕ) (keys : List String)
    (candidates : List Candidate)
    → let b = scan_candidates ids page fetch_no sequence rank keys candidates in
      All (IsUnseen ids keys) b.fresh
      × Distinct same_key b.fresh
      × ((k : String)
          → mem_key k b.keys ≡ false
          → (mem_key k keys ≡ false) × (any (λ c. str_eq k c.dedup_key) b.fresh ≡ false))
unfolding scan_candidates
scan-fresh ids page fetch_no sequence rank keys [] = (tt, tt, λ k h. (h, refl))
scan-fresh ids page fetch_no sequence rank keys (c ∷ cs) =
    elim (Bool-cases (mem_key c.dedup_key keys)) [
      | inl old ↦ rw old (scan-fresh ids page fetch_no (suc sequence) (suc rank) keys cs)
      | inr new ↦
          let (unseen, distinct, kept) =
            scan-fresh ids page fetch_no (suc sequence) (suc rank) (c.dedup_key ∷ keys) cs in
          let (unseen', away) = apart ids keys c _ unseen in
          elim (Bool-cases (mem_key c.resume_id ids)) [
            | inl known ↦
                rw (new, known)
                  (unseen', distinct, (λ k h. (ground (arith, kept k h), (kept k h).1)))
            | inr unknown ↦
                rw (new, unknown)
                  (
                    ((new, unknown), unseen'),
                    (away, distinct),
                    (λ k h. (ground (arith, kept k h), ground (arith, kept k h))),
                  )
          ]
    ]

pub scan-length :
    (ids : List String) (page fetch_no sequence rank : ℕ) (keys : List String)
    (candidates : List Candidate)
    → let b = scan_candidates ids page fetch_no sequence rank keys candidates in
      (length b.fresh + b.duplicates ≤ length candidates) × (length b.hits ≡ length candidates)
unfolding scan_candidates
scan-length ids page fetch_no sequence rank keys [] = (omega arith, refl)
scan-length ids page fetch_no sequence rank keys (c ∷ cs) =
    let again = scan-length ids page fetch_no (suc sequence) (suc rank) keys cs in
    let rest = scan-length ids page fetch_no (suc sequence) (suc rank) (c.dedup_key ∷ keys) cs in
    elim (Bool-cases (mem_key c.dedup_key keys)) [
      | inl old ↦ rw old (omega (arith, again.0), ap suc again.1)
      | inr new ↦ elim (Bool-cases (mem_key c.resume_id ids)) [
        | inl known ↦ rw (new, known) (omega (arith, rest.0), ap suc rest.1)
        | inr unknown ↦ rw (new, unknown) (omega (arith, rest.0), ap suc rest.1)
      ]
    ]
