-- ===== src/Liepin/Ledger/Tables/Updates.antt =====
-- An UPDATE by the primary key leaves every column alone that scopes or identifies a row, so a
-- search by those columns finds the same row, changed.
use cv_match.Common.{
  String, ◌≡◌, refl, ◌∙◌, Bool, false, Option, none, some, List, [], ◌∷◌, arith, if◌then◌else◌,
  find, any, All, Distinct, str_eq, str_eq_iff, Bool-cases, inl, inr, true, find-eq-some, any-find,
}
use cv_match.Liepin.Ledger.Tables.{
  Owner, DetailAttempt, Changes, has_id, has_key, key_of, has_owned_id, set_columns, update_rows,
  same_owner,
}

pub str_eq_comm : (s t : String) → str_eq s t ≡ str_eq t s
str_eq_comm s t = ground (arith, str_eq_iff s t, str_eq_iff t s)

abbrev pub clash_id : DetailAttempt → DetailAttempt → Bool
clash_id x y = has_id x.attempt_id y

abbrev pub clash_key : DetailAttempt → DetailAttempt → Bool
clash_key x y = has_key (key_of x) y

pub clash_id_comm : (x y : DetailAttempt) → clash_id x y ≡ clash_id y x
clash_id_comm x y = str_eq_comm y.attempt_id x.attempt_id

pub clash_key_comm : (x y : DetailAttempt) → clash_key x y ≡ clash_key y x
clash_key_comm x y = rw (
  str_eq_comm y.owner.tenant_id x.owner.tenant_id,
  str_eq_comm y.owner.workspace_id x.owner.workspace_id,
  str_eq_comm y.owner.actor_id x.owner.actor_id,
  str_eq_comm y.provider_account_hash x.provider_account_hash,
  str_eq_comm y.budget_date x.budget_date,
  str_eq_comm y.idempotency_key x.idempotency_key,
)

module _ (c : Changes) (attempt_id : String) where
  abbrev pub updated : DetailAttempt → DetailAttempt
  updated row = if has_id attempt_id row then set_columns c row else row

  abbrev pub updated? : Option DetailAttempt → Option DetailAttempt
  updated? none = none
  updated? (some row) = some (updated row)

  -- A test that an update cannot change.
  abbrev pub IsStable : (DetailAttempt → Bool) → Type 0
  IsStable p = (row : DetailAttempt) → p (updated row) ≡ p row

  pub has_owned_id-IsStable : (owner : Owner) (id : String) → IsStable (has_owned_id owner id)
  unfolding set_columns
  has_owned_id-IsStable owner id row = elim (Bool-cases (has_id attempt_id row)) [
    | inl h ↦ rw h
    | inr h ↦ rw h
  ]

  pub clash_id-IsStable : (x : DetailAttempt) → IsStable (clash_id x)
  unfolding set_columns
  clash_id-IsStable x row = elim (Bool-cases (has_id attempt_id row)) [
    | inl h ↦ rw h
    | inr h ↦ rw h
  ]

  pub clash_key-IsStable : (x : DetailAttempt) → IsStable (clash_key x)
  unfolding set_columns
  clash_key-IsStable x row = elim (Bool-cases (has_id attempt_id row)) [
    | inl h ↦ rw h
    | inr h ↦ rw h
  ]

  pub find-update :
      (p : DetailAttempt → Bool)
      → IsStable p
      → (rows : List DetailAttempt)
      → find p (update_rows c attempt_id rows) ≡ updated? (find p rows)
  unfolding update_rows
  find-update p stable [] = refl
  find-update p stable (row ∷ rows) = elim (Bool-cases (p row)) [
    | inl h ↦ rw (stable row, h)
    | inr h ↦ rw (stable row, h) (find-update p stable rows)
  ]

  pub any-update :
      (p : DetailAttempt → Bool)
      → IsStable p
      → (rows : List DetailAttempt) → any p (update_rows c attempt_id rows) ≡ any p rows
  unfolding update_rows
  any-update p stable [] = refl
  any-update p stable (row ∷ rows) = rw (stable row, any-update p stable rows)

  pub Distinct-update :
      (clash : DetailAttempt → DetailAttempt → Bool)
      → ((x : DetailAttempt) → IsStable (clash x))
      → ((x y : DetailAttempt) → clash x y ≡ clash y x)
      → (rows : List DetailAttempt) → Distinct clash rows
      → Distinct clash (update_rows c attempt_id rows)
  unfolding update_rows
  Distinct-update clash stable comm [] d = tt
  Distinct-update clash stable comm (row ∷ rows) d = (
    rw (any-update (clash (updated row)) (stable (updated row)) rows) (any-swap rows ∙ d.0),
    Distinct-update clash stable comm rows d.1,
  )
    where
      any-swap : (ys : List DetailAttempt) → any (clash (updated row)) ys ≡ any (clash row) ys
      any-swap [] = refl
      any-swap (y ∷ ys) = rw (comm (updated row) y, stable y row, comm y row, any-swap ys)

  -- A row of another id is not touched.
  pub update_rows_absent :
      (rows : List DetailAttempt)
      → any (has_id attempt_id) rows ≡ false
      → update_rows c attempt_id rows ≡ rows
  unfolding update_rows
  update_rows_absent [] h = refl
  update_rows_absent (row ∷ rows) h = ground (arith, update_rows_absent rows)

  pub update_rows-All {ℓ} :
      (P : DetailAttempt → Type ℓ) (rows : List DetailAttempt)
      → ((row : DetailAttempt) → P (set_columns c row))
      → All P rows
      → All P (update_rows c attempt_id rows)
  unfolding update_rows
  update_rows-All P [] new h = tt
  update_rows-All P (row ∷ rows) new h = elim (Bool-cases (has_id attempt_id row)) [
    | inl e ↦ rw e (new row, update_rows-All P rows new h.1)
    | inr e ↦ rw e (h.0, update_rows-All P rows new h.1)
  ]

pub str_eq_refl : (s : String) → str_eq s s ≡ true
str_eq_refl s = (str_eq_iff s s).1 refl

pub same_owner-eq : (a b : Owner) → same_owner a b ≡ true → a ≡ b
same_owner-eq a b h = ground (
  arith,
  str_eq_iff a.tenant_id b.tenant_id,
  str_eq_iff a.workspace_id b.workspace_id,
  str_eq_iff a.actor_id b.actor_id,
)

pub same_owner_refl : (a : Owner) → same_owner a a ≡ true
same_owner_refl a = rw (str_eq_refl a.tenant_id, str_eq_refl a.workspace_id, str_eq_refl a.actor_id)

-- A row that was found by its owner and id has them.
pub found-owner :
    (o : Owner) (attempt_id : String) (rows : List DetailAttempt) (row : DetailAttempt)
    → find (has_owned_id o attempt_id) rows ≡ some row
    → (row.owner ≡ o) × (row.attempt_id ≡ attempt_id)
found-owner o attempt_id rows row found =
    let h = find-eq-some (has_owned_id o attempt_id) rows row found in
    (
      same_owner-eq row.owner o (ground arith),
      (str_eq_iff row.attempt_id attempt_id).0 (ground arith),
    )

-- Two rows that a consistent table holds under one id are one row.
pub found_unique :
    (p q : DetailAttempt → Bool) (rows : List DetailAttempt) (x y : DetailAttempt)
    → Distinct clash_id rows
    → find p rows ≡ some x
    → find q rows ≡ some y
    → clash_id x y ≡ true
    → x ≡ y
found_unique p q [] x y d hx hy same = ground arith
found_unique p q (row ∷ rows) x y d hx hy same = ground (
  arith,
  found_unique p q rows x y d.1,
  any-find p (clash_id row) rows x,
  any-find q (clash_id row) rows y,
  clash_id_comm row x,
  clash_id_comm row y,
)
