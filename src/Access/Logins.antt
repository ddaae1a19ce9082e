-- ===== src/Access/Logins.antt =====
-- Logins: `get_user_for_login`, `record_login_attempt` and `is_login_locked` of
-- src/seektalent_ui/workbench_store.py, and the route `login` of
-- src/seektalent_ui/workbench_routes.py.
use cv_match.Common.{
  ℕ, ◌+◌, Bool, true, false, not, ◌&&◌, ◌==◌, leb, ltb, Option, none, some, List, [], ◌∷◌, ◌++◌,
  find, select, if◌then◌else◌, is_some, Result, ok, err,
}
use cv_match.Common.Updates.{count}
use cv_match.Common.Sorting.{sort_by}
use cv_match.Text.{Text, strip, is_blank, text_eq}
use cv_match.Workbench.Jobs.{first}
use cv_match.Workbench.Jobs.Starts.{bounded_text}
use cv_match.Access.{Platform, UserRow, Membership, LoginAttempt, Accounts}
use cv_match.Access.Sessions.{UserSessionTokens, AccessError, create_user_session}

-- `_normalize_email`
unfoldable pub normalize_email : ⦃env : Platform⦄ → Text → Text
normalize_email ⦃env⦄ email = env.lower (strip email)

-- "unknown"
abbrev pub unknown : Text
unknown = 117 ∷ 110 ∷ 107 ∷ 110 ∷ 111 ∷ 119 ∷ 110 ∷ []

-- `... or "unknown"`
abbrev pub or_unknown : Option Text → Text
or_unknown none = unknown
or_unknown (some text) = if is_blank text then unknown else text

abbrev pub safe_email : ⦃env : Platform⦄ → Text → Text
safe_email email = or_unknown (bounded_text (some (normalize_email email)) 254)

abbrev pub safe_ip : Option Text → Option Text
safe_ip ip_address = bounded_text ip_address 64

-- the collation NOCASE of the column `email`
abbrev ascii_lower : ℕ → ℕ
ascii_lower c = if leb 65 c && leb c 90 then c + 32 else c

abbrev pub same_nocase : Text → Text → Bool
same_nocase [] [] = true
same_nocase [] (d ∷ t) = false
same_nocase (c ∷ s) [] = false
same_nocase (c ∷ s) (d ∷ t) = ascii_lower c == ascii_lower d && same_nocase s t

-- the user of the address in the oldest of the workspaces that the user belongs to
abbrev pub with_membership : UserRow → Option Membership → Option (UserRow × Membership)
with_membership row none = none
with_membership row (some membership) = some (row, membership)

abbrev pub oldest_membership : List Membership → Option UserRow → Option (UserRow × Membership)
oldest_membership memberships none = none
oldest_membership memberships (some row) = with_membership row (
    first (
      sort_by (λ x y. ltb x.created_at y.created_at)
        (select (λ membership. membership.user_id == row.user_id) memberships)))

unfoldable pub get_user_for_login :
    ⦃env : Platform⦄ → Text → Accounts → Option (UserRow × Membership)
get_user_for_login email s =
    oldest_membership s.memberships
      (find (λ row. same_nocase row.email (normalize_email email)) s.users)

-- the arguments of the route, its clock at each of the methods that it calls, and the tokens
pub record Login : Type 0 where
  pub email : Text
  pub password : Text
  pub ip_address : Option Text
  pub checked_at : ℕ
  pub issued_at : ℕ
  pub recorded_at : ℕ
  pub tokens : UserSessionTokens

unfoldable pub record_login_attempt :
    ⦃env : Platform⦄ → Text → Bool → Text → Option ℕ → Option Text → ℕ → Accounts → Accounts
record_login_attempt email success reason user_id ip_address now s = record s {
  attempts = s.attempts ++ attempt ∷ [];
}
  where
    attempt : LoginAttempt
    attempt = record {
      email = safe_email email;
      success = success;
      reason = or_unknown (bounded_text (some reason) 64);
      user_id = user_id;
      ip_address = safe_ip ip_address;
      created_at = now;
    }

abbrev pub lockout_limit : ℕ
lockout_limit = 5

abbrev pub lockout_window : ℕ
lockout_window = 300

-- `(ip_address IS NULL AND ? IS NULL) OR ip_address = ?`
abbrev pub same_ip : Option Text → Option Text → Bool
same_ip none none = true
same_ip none (some ip) = false
same_ip (some column) none = false
same_ip (some column) (some ip) = text_eq column ip

abbrev pub counts_against : ⦃env : Platform⦄ → Text → Option Text → ℕ → LoginAttempt → Bool
counts_against email ip_address now attempt =
    text_eq attempt.email (safe_email email)
    && (not attempt.success
        && (leb now (attempt.created_at + lockout_window)
            && same_ip attempt.ip_address (safe_ip ip_address)))

unfoldable pub is_login_locked : ⦃env : Platform⦄ → Text → Option Text → ℕ → Accounts → Bool
is_login_locked email ip_address now s =
    leb lockout_limit (count (counts_against email ip_address now) s.attempts)

-- what a route answers: 204 with the cookies, 401, or 500 for an exception of the store
pub data LoginResponse : Type 0 where
  no_content : UserSessionTokens → LoginResponse
  unauthorized server_error : LoginResponse

-- "locked_out", "invalid_credentials", "disabled_user", "success"
abbrev locked_out : Text
locked_out = 108 ∷ 111 ∷ 99 ∷ 107 ∷ 101 ∷ 100 ∷ 95 ∷ 111 ∷ 117 ∷ 116 ∷ []

abbrev invalid_credentials : Text
invalid_credentials =
    105 ∷ 110 ∷ 118 ∷ 97 ∷ 108 ∷ 105 ∷ 100 ∷ 95 ∷ 99 ∷ 114 ∷ 101 ∷ 100 ∷ 101 ∷ 110 ∷ 116 ∷ 105 ∷ 97
    ∷ 108 ∷ 115 ∷ []

abbrev disabled_user : Text
disabled_user = 100 ∷ 105 ∷ 115 ∷ 97 ∷ 98 ∷ 108 ∷ 101 ∷ 100 ∷ 95 ∷ 117 ∷ 115 ∷ 101 ∷ 114 ∷ []

abbrev succeeded : Text
succeeded = 115 ∷ 117 ∷ 99 ∷ 99 ∷ 101 ∷ 115 ∷ 115 ∷ []

abbrev pub record_call : ⦃env : Platform⦄ → Login → Bool → Text → Option ℕ → Accounts → Accounts
record_call call success reason user_id s =
    record_login_attempt call.email success reason user_id call.ip_address call.recorded_at s

abbrev pub refuse : ⦃env : Platform⦄ → Login → Text → Option ℕ → Accounts → LoginResponse × Accounts
refuse call reason user_id s = (unauthorized, record_call call false reason user_id s)

abbrev pub id_of_row : Option (UserRow × Membership) → Option ℕ
id_of_row none = none
id_of_row (some (row, membership)) = some row.user_id

-- `create_user_session` and what follows it; an exception ends the route there.
abbrev pub let_in :
    ⦃env : Platform⦄
    → Login
    → ℕ
    → Result AccessError UserSessionTokens × Accounts
    → LoginResponse × Accounts
let_in call user_id (err e, s) = (server_error, s)
let_in call user_id (ok tokens, s) =
    (no_content tokens, record_call call true succeeded (some user_id) s)

abbrev pub check_user :
    ⦃env : Platform⦄ → Login → Option (UserRow × Membership) → Accounts → LoginResponse × Accounts
check_user ⦃env⦄ call none s = refuse call invalid_credentials none s
check_user ⦃env⦄ call (some (row, membership)) s =
    if is_some row.disabled_at
    then refuse call disabled_user (some row.user_id) s
    else (if env.verify_password call.password row.password_hash
        then let_in call row.user_id
            (create_user_session row.user_id membership.workspace_id call.tokens call.issued_at s)
        else refuse call invalid_credentials (some row.user_id) s)

unfoldable pub login : ⦃env : Platform⦄ → Login → Accounts → LoginResponse × Accounts
login call s =
    let login_row = get_user_for_login call.email s in
    if is_login_locked call.email call.ip_address call.checked_at s
    then refuse call locked_out (id_of_row login_row) s
    else check_user call login_row s
