-- ===== src/Access/Setup.antt =====
-- The first account: `bootstrap_admin` of src/seektalent_ui/workbench_store.py.
use cv_match.Common.{ℕ, Bool, ◌||◌, none, List, [], ◌∷◌, ◌++◌, if◌then◌else◌, Result, ok, err}
use cv_match.Text.{Text, strip, is_blank}
use cv_match.Access.{Platform, admin, UserRow, Membership, Accounts, WorkbenchUser, user_from_row}
use cv_match.Access.Sessions.{AccessError, value_error, bootstrap_already_complete}
use cv_match.Access.Logins.{normalize_email}

-- the arguments of a bootstrap; `hash_password` has salted and hashed the password
pub record Bootstrap : Type 0 where
  pub email : Text
  pub display_name : Text
  pub password_hash : Text
  pub user_id : ℕ
  pub now : ℕ
  pub is_loopback : Bool

abbrev pub default_workspace : ℕ
default_workspace = 0

abbrev pub first_admin : ⦃env : Platform⦄ → Bootstrap → UserRow
first_admin req = record {
  user_id = req.user_id;
  email = normalize_email req.email;
  display_name = strip req.display_name;
  password_hash = req.password_hash;
  disabled_at = none;
  created_at = req.now;
}

abbrev pub first_membership : Bootstrap → Membership
first_membership req = record {
  workspace_id = default_workspace;
  user_id = req.user_id;
  role = admin;
  created_at = req.now;
}

abbrev pub insert_admin :
    ⦃env : Platform⦄
    → Bootstrap
    → Accounts
    → List UserRow
    → Result AccessError WorkbenchUser × Accounts
insert_admin req s (row ∷ users) = (err bootstrap_already_complete, s)
insert_admin req s [] = (
  ok (user_from_row (first_admin req) (first_membership req)),
  record s {
    users = first_admin req ∷ [];
    memberships = s.memberships ++ first_membership req ∷ [];
  },
)

unfoldable pub bootstrap_admin :
    ⦃env : Platform⦄ → Bootstrap → Accounts → Result AccessError WorkbenchUser × Accounts
bootstrap_admin req s =
    if is_blank (normalize_email req.email)
      || (is_blank (strip req.display_name) || is_blank req.password_hash)
    then (err value_error, s)
    else insert_admin req s s.users
