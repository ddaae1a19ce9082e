-- ===== src/Access/Guards.antt =====
-- The guards of src/seektalent_ui/auth.py, and the routes under /api/auth of
-- src/seektalent_ui/workbench_routes.py as one server that answers requests in turn.
use cv_match.Common.{
  ℕ, true, false, Option, none, some, List, [], ◌∷◌, if◌then◌else◌, Result, ok, err,
}
use cv_match.Text.{Text}
use cv_match.Access.{Platform, Accounts, WorkbenchUser}
use cv_match.Access.Sessions.{
  AccessError, integrity, value_error, bootstrap_already_complete, get_user_by_session,
  revoke_user_session, rotate_session_csrf, verify_session_csrf,
}
use cv_match.Access.Logins.{Login, LoginResponse, login}
use cv_match.Access.Setup.{Bootstrap, bootstrap_admin}

-- `_digest_or_none`
abbrev pub digest_or_none : ⦃env : Platform⦄ → Option Text → Option ℕ
digest_or_none ⦃env⦄ none = none
digest_or_none ⦃env⦄ (some token) = some (env.sha256 token)

pub data Denial : Type 0 where
  authentication_required csrf_token_invalid : Denial

abbrev pub need_user : Option WorkbenchUser × Accounts → Result Denial WorkbenchUser × Accounts
need_user (none, s) = (err authentication_required, s)
need_user (some user, s) = (ok user, s)

unfoldable pub require_current_user :
    ⦃env : Platform⦄ → ℕ → Option Text → Accounts → Result Denial WorkbenchUser × Accounts
require_current_user now cookie s =
    need_user (get_user_by_session true now (digest_or_none cookie) s)

unfoldable pub require_current_user_readonly :
    ⦃env : Platform⦄ → ℕ → Option Text → Accounts → Result Denial WorkbenchUser × Accounts
require_current_user_readonly now cookie s =
    need_user (get_user_by_session false now (digest_or_none cookie) s)

abbrev pub need_csrf :
    ⦃env : Platform⦄
    → Option ℕ
    → Option Text
    → Option WorkbenchUser × Accounts
    → Result Denial WorkbenchUser × Accounts
need_csrf session_digest csrf_token (none, s) = (err authentication_required, s)
need_csrf none csrf_token (some user, s) = (err authentication_required, s)
need_csrf (some session_digest) csrf_token (some user, s) =
    if verify_session_csrf session_digest csrf_token s
    then (ok user, s)
    else (err csrf_token_invalid, s)

unfoldable pub require_csrf_user :
    ⦃env : Platform⦄
    → ℕ
    → Option Text
    → Option Text
    → Accounts
    → Result Denial WorkbenchUser × Accounts
require_csrf_user now cookie csrf_token s =
    need_csrf (digest_or_none cookie) csrf_token
      (get_user_by_session true now (digest_or_none cookie) s)

pub data Response : Type 0 where
  bootstrapped me_is : WorkbenchUser → Response
  login_answer : LoginResponse → Response
  logged_out forbidden conflict failed : Response
  denied : Denial → Response

abbrev pub bootstrap_answer : Result AccessError WorkbenchUser × Accounts → Response × Accounts
bootstrap_answer (ok user, s) = (bootstrapped user, s)
bootstrap_answer (err bootstrap_already_complete, s) = (conflict, s)
bootstrap_answer (err value_error, s) = (failed, s)
bootstrap_answer (err integrity, s) = (failed, s)

abbrev pub logout :
    ⦃env : Platform⦄
    → ℕ
    → Option Text
    → Result Denial WorkbenchUser × Accounts
    → Response × Accounts
logout now cookie (err denial, s) = (denied denial, s)
logout now cookie (ok user, s) = (logged_out, revoke_user_session now (digest_or_none cookie) s)

abbrev pub rotate : ⦃env : Platform⦄ → Option ℕ → Text → Accounts → Accounts
rotate none csrf_token s = s
rotate (some session_digest) csrf_token s = rotate_session_csrf csrf_token session_digest s

abbrev pub me :
    ⦃env : Platform⦄
    → Option Text
    → Text
    → Result Denial WorkbenchUser × Accounts
    → Response × Accounts
me cookie csrf_token (err denial, s) = (denied denial, s)
me cookie csrf_token (ok user, s) = (me_is user, rotate (digest_or_none cookie) csrf_token s)

-- A request, with the clock and the random tokens of its handling. A visit is a request to any
-- other route, of which only the guard matters here.
pub data Request : Type 0 where
  bootstraps : Bootstrap → Request
  logs_in : Login → Request
  logs_out : (now : ℕ) (cookie csrf_token : Option Text) → Request
  asks_me : (now : ℕ) (cookie : Option Text) (new_csrf_token : Text) → Request
  visits : (now : ℕ) (cookie : Option Text) → Request

abbrev pub visit : Result Denial WorkbenchUser × Accounts → Response × Accounts
visit (err denial, s) = (denied denial, s)
visit (ok user, s) = (me_is user, s)

abbrev pub answer : LoginResponse × Accounts → Response × Accounts
answer (response, s) = (login_answer response, s)

unfoldable pub serve : ⦃env : Platform⦄ → Request → Accounts → Response × Accounts
serve (bootstraps req) s =
    if req.is_loopback then bootstrap_answer (bootstrap_admin req s) else (forbidden, s)
serve (logs_in call) s = answer (login call s)
serve (logs_out now cookie csrf_token) s =
    logout now cookie (require_csrf_user now cookie csrf_token s)
serve (asks_me now cookie new_csrf_token) s =
    me cookie new_csrf_token (require_current_user now cookie s)
serve (visits now cookie) s = visit (require_current_user now cookie s)

-- The requests and their answers, in order, and the tables behind them.
unfoldable pub serve_all :
    ⦃env : Platform⦄ → List Request → Accounts → List (Request × Response) × Accounts
serve_all [] s = ([], s)
serve_all (request ∷ requests) s =
    let (response, t) = serve request s in
    let (rest, u) = serve_all requests t in ((request, response) ∷ rest, u)
