-- ===== src/Access.antt =====
-- Accounts and logins of the web interface: the tables of users, memberships, login sessions and
-- login attempts in src/seektalent_ui/workbench_store.py with the methods on them, the guards of
-- src/seektalent_ui/auth.py, and the /api/auth routes of src/seektalent_ui/workbench_routes.py.
--
-- The lower case of Unicode, SHA-256 and the check of a password against its hash are a
-- parameter, `Platform`. A digest is compared only, so it is a number, as an identifier is. The
-- random tokens and the clocks are arguments. Left out: the rows of the security audit, which
-- these methods only add, the user agent, the id of an attempt, and the cookies' attributes.
pub mod Sessions
pub mod Logins
pub mod Setup
pub mod Guards
pub mod Quiet
pub mod Retired
pub mod Ended
pub mod LoggedOut
pub mod Joins
pub mod Entry
pub mod Throttle
mod Tests
use cv_match.Common.{ℕ, Bool, true, false, ◌&&◌, ◌||◌, List, Option, none, some}
use cv_match.Text.{Text, text_eq}

pub record Platform : Type 0 where
  pub lower : Text → Text
  pub sha256 : Text → ℕ
  pub verify_password : Text → Text → Bool

pub data Role : Type 0 where
  admin member : Role

pub record UserRow : Type 0 where
  pub user_id : ℕ
  pub email : Text
  pub display_name : Text
  pub password_hash : Text
  pub disabled_at : Option ℕ
  pub created_at : ℕ

pub record Membership : Type 0 where
  pub workspace_id : ℕ
  pub user_id : ℕ
  pub role : Role
  pub created_at : ℕ

pub record UserSession : Type 0 where
  pub session_id : ℕ
  pub user_id : ℕ
  pub workspace_id : ℕ
  pub csrf_token_digest : ℕ
  pub issued_at : ℕ
  pub expires_at : ℕ
  pub revoked_at : Option ℕ
  pub last_seen_at : ℕ

pub record LoginAttempt : Type 0 where
  pub email : Text
  pub success : Bool
  pub reason : Text
  pub user_id : Option ℕ
  pub ip_address : Option Text
  pub created_at : ℕ

pub record Accounts : Type 0 where
  pub users : List UserRow
  pub memberships : List Membership
  pub sessions : List UserSession
  pub attempts : List LoginAttempt

pub record WorkbenchUser : Type 0 where
  pub user_id : ℕ
  pub email : Text
  pub display_name : Text
  pub role : Role
  pub workspace_id : ℕ

-- `_user_from_row`
abbrev pub user_from_row : UserRow → Membership → WorkbenchUser
user_from_row row membership = record {
  user_id = row.user_id;
  email = row.email;
  display_name = row.display_name;
  role = membership.role;
  workspace_id = membership.workspace_id;
}
