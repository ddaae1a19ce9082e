-- ===== src/Access/Tests.antt =====
-- The first account of a server, two wrong passwords, and two logins.
use cv_match.Common.{ℕ, ◌+◌, ◌*◌, ◌≤◌, ◌≡◌, refl, none, some, List, [], ◌∷◌, ok, arith, true}
use cv_match.Common.Updates.{count}
use cv_match.Common.Sorting.{sort_by, insert_sorted}
use cv_match.Text.{Text, text_eq, strip, lstrip, rstrip, is_space}
use cv_match.Workbench.Jobs.Starts.{bounded_text}
use cv_match.Access.{Platform, admin, UserRow, Membership, UserSession, Accounts, user_from_row}
use cv_match.Access.Sessions.{
  create_user_session, session_ttl, get_user_by_session, verify_session_csrf, revoke_user_session,
}
use cv_match.Access.Logins.{
  Login, login, get_user_for_login, record_login_attempt, is_login_locked, normalize_email,
}
use cv_match.Access.Setup.{bootstrap_admin}
use cv_match.Access.Guards.{
  Request, bootstraps, logs_in, serve, serve_all, require_csrf_user, logs_out,
}
use cv_match.Access.Retired.{IsShutOut}
use cv_match.Access.Ended.{login_retires}
use cv_match.Access.Throttle.{fails_like, login-throttled}
use cv_match.Access.Entry.{login-require}
use cv_match.Access.LoggedOut.{logout_final}

abbrev weigh : Text → ℕ
weigh [] = 0
weigh (c ∷ s) = c + 31 * weigh s

abbrev toy : Platform
toy = record { lower = λ s. s; sha256 = weigh; verify_password = text_eq }

abbrev address : Text
address = 97 ∷ 64 ∷ 98 ∷ []

abbrev first_request : Request
first_request = bootstraps (record {
  email = address;
  display_name = 65 ∷ [];
  password_hash = 112 ∷ 119 ∷ [];
  user_id = 1;
  now = 10;
  is_loopback = true;
})

abbrev call_with : Text → ℕ → Text → Login
call_with password now token = record {
  email = address;
  password = password;
  ip_address = some (49 ∷ []);
  checked_at = now;
  issued_at = now;
  recorded_at = now;
  tokens = record { session_token = token; csrf_token = 7 ∷ token };
}

abbrev nobody : Accounts
nobody = record { users = []; memberships = []; sessions = []; attempts = [] }

abbrev history : List Request
history =
    first_request
    ∷ logs_in (call_with (120 ∷ []) 100 (1 ∷ []))
    ∷ logs_in (call_with (121 ∷ []) 110 (2 ∷ []))
    ∷ []

abbrev right_call : Login
right_call = call_with (112 ∷ 119 ∷ []) 120 (3 ∷ [])

abbrev again : Login
again = call_with (112 ∷ 119 ∷ []) 200 (4 ∷ [])

abbrev before_login : Accounts
before_login = (serve_all ⦃env = toy⦄ history nobody).1

abbrev after_login : Accounts
after_login = (login ⦃env = toy⦄ right_call before_login).1

abbrev row : UserRow
row = record {
  user_id = 1;
  email = address;
  display_name = 65 ∷ [];
  password_hash = 112 ∷ 119 ∷ [];
  disabled_at = none;
  created_at = 10;
}

abbrev membership : Membership
membership = record { workspace_id = 0; user_id = 1; role = admin; created_at = 10 }

abbrev old : UserSession
old = record {
  session_id = 3;
  user_id = 1;
  workspace_id = 0;
  csrf_token_digest = 7 + 31 * 3;
  issued_at = 120;
  expires_at = 120 + session_ttl;
  revoked_at = none;
  last_seen_at = 120;
}

login-throttled_example :
    count (fails_like ⦃env = toy⦄ right_call) (serve_all ⦃env = toy⦄ history nobody).0 ≤ 4
unfolding login serve serve_all record_login_attempt is_login_locked bootstrap_admin
    get_user_for_login create_user_session normalize_email bounded_text strip lstrip rstrip is_space
    sort_by insert_sorted
login-throttled_example =
    login-throttled ⦃env = toy⦄ history nobody right_call right_call.tokens refl

two_failures :
    count (fails_like ⦃env = toy⦄ right_call) (serve_all ⦃env = toy⦄ history nobody).0 ≡ 2
unfolding login serve serve_all record_login_attempt is_login_locked bootstrap_admin
    get_user_for_login create_user_session normalize_email bounded_text strip lstrip rstrip is_space
    sort_by insert_sorted
two_failures = refl

login_retires_example :
    IsShutOut ⦃env = toy⦄ 300
      (3 ∷ [])
      none
      (serve_all ⦃env = toy⦄ history (login ⦃env = toy⦄ again after_login).1).1
unfolding login serve serve_all record_login_attempt is_login_locked bootstrap_admin
    get_user_for_login create_user_session normalize_email bounded_text strip lstrip rstrip is_space
    sort_by insert_sorted
login_retires_example =
    login_retires ⦃env = toy⦄ again after_login again.tokens row membership old history 300 (3 ∷ [])
      none refl refl refl refl refl refl

login-require_example :
    (require_csrf_user ⦃env = toy⦄ 500 (some (3 ∷ [])) (some (7 ∷ 3 ∷ [])) after_login).0
    ≡ ok (user_from_row row membership)
unfolding login serve serve_all record_login_attempt is_login_locked bootstrap_admin
    get_user_for_login create_user_session normalize_email bounded_text strip lstrip rstrip is_space
    sort_by insert_sorted
login-require_example =
    login-require ⦃env = toy⦄ right_call before_login right_call.tokens row membership 500
      ((refl, tt), (refl, tt)) refl refl (omega arith) refl

logout_final_example :
    IsShutOut ⦃env = toy⦄ 300
      (3 ∷ [])
      (some (7 ∷ 3 ∷ []))
      (serve_all ⦃env = toy⦄ history
        (serve ⦃env = toy⦄ (logs_out 250 (some (3 ∷ [])) (some (7 ∷ 3 ∷ []))) after_login).1).1
unfolding login serve serve_all record_login_attempt is_login_locked bootstrap_admin
    get_user_for_login create_user_session normalize_email bounded_text strip lstrip rstrip is_space
    sort_by insert_sorted require_csrf_user get_user_by_session verify_session_csrf
    revoke_user_session
logout_final_example =
    logout_final ⦃env = toy⦄ after_login 250 (3 ∷ []) (some (7 ∷ 3 ∷ [])) history 300
      (some (7 ∷ 3 ∷ [])) refl
