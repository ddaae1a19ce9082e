-- ===== src/Access/Joins.antt =====
-- The rows that a login reads are those that the guards of its session read.
use cv_match.Common.{
  Bool, true, false, ◌≡◌, Option, none, some, List, [], ◌∷◌, find, find-All, arith, ◌&&◌, ◌==◌, any,
  ltb, select, select-All, All-select, All, All-both, Distinct, ap,
}
use cv_match.Common.Updates.{IsKeyed, found_all}
use cv_match.Common.Sorting.{sort_by, sort_by-All}
use cv_match.Text.{Text}
use cv_match.Workbench.Jobs.{first}
use cv_match.Access.{Platform, UserRow, Membership, Accounts}
use cv_match.Access.Sessions.{membership_of}
use cv_match.Access.Logins.{get_user_for_login, oldest_membership, with_membership}

abbrev pub same_membership : Membership → Membership → Bool
same_membership x y = y.user_id == x.user_id && y.workspace_id == x.workspace_id

-- The primary keys of the users and of the memberships.
abbrev pub HasKeys : Accounts → Type 0
HasKeys s =
    IsKeyed (λ (row : UserRow). row.user_id) s.users × Distinct same_membership s.memberships

memberships_found :
    (xs : List Membership)
    → Distinct same_membership xs
    → All (λ x. membership_of x.user_id x.workspace_id xs ≡ some x) xs
memberships_found [] d = tt
memberships_found (x ∷ xs) d = (ground arith, still x xs xs d.0 (memberships_found xs d.1))
  where
    still :
        (x : Membership) (xs ys : List Membership)
        → any (same_membership x) ys ≡ false
        → All (λ y. membership_of y.user_id y.workspace_id xs ≡ some y) ys
        → All (λ y. membership_of y.user_id y.workspace_id (x ∷ xs) ≡ some y) ys
    still x xs [] h k = tt
    still x xs (y ∷ ys) h k = (ground (arith, k.0), still x xs ys (ground arith) k.1)

first-All :
    (P : Membership → Type 0) (xs : List Membership) (x : Membership)
    → All P xs
    → first xs ≡ some x
    → P x
first-All P [] x h e = absurd (ground arith)
first-All P (y ∷ xs) x h e = let same : y ≡ x = ground arith in rw (← same) h.0

-- The rows that a login reads are those that a session's join reads.
abbrev pub Joins : Accounts → UserRow → Membership → Type 0
Joins s row membership =
    (find (λ (other : UserRow). other.user_id == row.user_id) s.users ≡ some row)
    × (membership_of row.user_id membership.workspace_id s.memberships ≡ some membership)

with_membership-parts :
    (other row : UserRow) (membership : Membership) (o : Option Membership)
    → with_membership other o ≡ some (row, membership)
    → (other ≡ row) × (o ≡ some membership)
with_membership-parts other row membership none h = absurd (ground arith)
with_membership-parts other row membership (some m) h = (ground arith, ground arith)

abbrev older : Membership → Membership → Bool
older x y = ltb x.created_at y.created_at

abbrev of_row : UserRow → Membership → Bool
of_row row membership = membership.user_id == row.user_id

oldest_membership-parts :
    (memberships : List Membership) (found : Option UserRow) (row : UserRow)
    (membership : Membership)
    → oldest_membership memberships found ≡ some (row, membership)
    → (found ≡ some row)
      × (first (sort_by older (select (of_row row) memberships)) ≡ some membership)
oldest_membership-parts memberships none row membership h = absurd (ground arith)
oldest_membership-parts memberships (some other) row membership h =
    let (e, k) =
      with_membership-parts other row membership
        (first (sort_by older (select (of_row other) memberships))) h in
    (ap some e, rw (← e) k)

oldest-Joins :
    (s : Accounts) (p : UserRow → Bool) (row : UserRow) (membership : Membership)
    → HasKeys s
    → oldest_membership s.memberships (find p s.users) ≡ some (row, membership)
    → Joins s row membership
oldest-Joins s p row membership keys found =
    let (is_row, is_first) =
      oldest_membership-parts s.memberships (find p s.users) row membership found in
    let both =
      first-All
        (λ m.
          (of_row row m ≡ true) × (membership_of m.user_id m.workspace_id s.memberships ≡ some m))
        (sort_by older (select (of_row row) s.memberships)) membership
        (sort_by-All older _ (select (of_row row) s.memberships) (
          All-both _ _ (select (of_row row) s.memberships) (All-select (of_row row) s.memberships)
            (select-All _ (of_row row) s.memberships (memberships_found s.memberships keys.1))))
        is_first in
    let same : membership.user_id ≡ row.user_id = ground (arith, both.0) in
    (
      find-All (λ x. find (λ (other : UserRow). other.user_id == x.user_id) s.users ≡ some x) p
          s.users (found_all (λ (other : UserRow). other.user_id) s.users keys.0) is_row,
      rw (← same) both.1,
    )

pub login-Joins :
    ⦃env : Platform⦄ (email : Text) (s : Accounts) (row : UserRow) (membership : Membership)
    → HasKeys s
    → get_user_for_login email s ≡ some (row, membership)
    → Joins s row membership
unfolding get_user_for_login
login-Joins email s row membership keys found = oldest-Joins s _ row membership keys found
