-- ===== src/Access/Throttle.antt =====
-- The lockout of `is_login_locked` against the history of the requests to the login route.
use cv_match.Common.{
  ℕ, ◌+◌, ◌≤◌, Bool, true, false, ◌&&◌, leb, ◌≡◌, refl, ◌∙◌, inl, inr, Option, none, some, List, [],
  ◌∷◌, arith, Bool-cases, any, is_some, ap,
}
use cv_match.Common.Updates.{count, bit, count-snoc, count-snoc_miss}
use cv_match.Text.{Text, text_eq}
use cv_match.Access.{Platform, UserRow, Membership, Accounts}
use cv_match.Access.Sessions.{create_user_session, has_digest, UserSessionTokens}
use cv_match.Access.Logins.{
  Login, login, LoginResponse, no_content, unauthorized, server_error, safe_email, safe_ip, same_ip,
  counts_against, record_login_attempt, is_login_locked, get_user_for_login, check_user, refuse,
  let_in, lockout_window,
}
use cv_match.Access.Guards.{
  Request, bootstraps, logs_in, logs_out, asks_me, visits, Response, login_answer, serve, serve_all,
}
use cv_match.Access.Quiet.{Quiet, is_login, admits, serve-Settles, updates, still}

-- A call that the route has refused, for the address of `call` and from where `call` comes, and
-- so late that the window of `call` reaches it.
abbrev pub refused_like : ⦃env : Platform⦄ → Login → Login → LoginResponse → Bool
refused_like call other (no_content tokens) = false
refused_like call other server_error = false
refused_like call other unauthorized =
    text_eq (safe_email other.email) (safe_email call.email)
    && (leb call.checked_at (other.recorded_at + lockout_window)
        && same_ip (safe_ip other.ip_address) (safe_ip call.ip_address))

abbrev answered_like : ⦃env : Platform⦄ → Login → Login → Response → Bool
answered_like call other (login_answer response) = refused_like call other response
answered_like call other _ = false

abbrev pub fails_like : ⦃env : Platform⦄ → Login → Request × Response → Bool
fails_like call (logs_in other, response) = answered_like call other response
fails_like call (_, response) = false

module _ ⦃env : Platform⦄ (call : Login) where
  abbrev pub failures_of : Accounts → ℕ
  failures_of s = count (counts_against call.email call.ip_address call.checked_at) s.attempts

  abbrev pub Counts : Login → LoginResponse × Accounts → Accounts → Type 0
  Counts other (response, t) s =
      failures_of t ≡ failures_of s + bit (refused_like call other response)

  refuse-Counts :
      (other : Login) (reason : Text) (user_id : Option ℕ) (s : Accounts)
      → Counts other (refuse other reason user_id s) s
  unfolding record_login_attempt
  refuse-Counts other reason user_id s =
      count-snoc (counts_against call.email call.ip_address call.checked_at) s.attempts _

  and_false : (b : Bool) → (b && false) ≡ false
  and_false true = refl
  and_false false = refl

  let_in-Counts :
      (other : Login) (user_id workspace_id : ℕ) (s : Accounts)
      → Counts other
          (let_in other user_id
            (create_user_session user_id workspace_id other.tokens other.issued_at s))
          s
  unfolding create_user_session record_login_attempt
  let_in-Counts other user_id workspace_id s =
      elim (Bool-cases (any (has_digest (env.sha256 other.tokens.session_token)) s.sessions)) [
        | inl e ↦ rw e (omega arith)
        | inr e ↦ rw e (
            count-snoc_miss (counts_against call.email call.ip_address call.checked_at) s.attempts _
              (and_false _))
      ]

  check_user-Counts :
      (other : Login) (row : Option (UserRow × Membership)) (s : Accounts)
      → Counts other (check_user other row s) s
  check_user-Counts other none s = refuse-Counts other _ none s
  check_user-Counts other (some (row, membership)) s = elim (Bool-cases (is_some row.disabled_at)) [
    | inl e ↦ rw e (refuse-Counts other _ (some row.user_id) s)
    | inr e ↦ elim (Bool-cases (env.verify_password other.password row.password_hash)) [
      | inl right ↦ rw (e, right) (let_in-Counts other row.user_id membership.workspace_id s)
      | inr wrong ↦ rw (e, wrong) (refuse-Counts other _ (some row.user_id) s)
    ]
  ]

  login-Counts : (other : Login) (s : Accounts) → Counts other (login other s) s
  unfolding login
  login-Counts other s =
      elim (Bool-cases (is_login_locked other.email other.ip_address other.checked_at s)) [
        | inl e ↦ rw e (refuse-Counts other _ _ s)
        | inr e ↦ rw e (check_user-Counts other (get_user_for_login other.email s) s)
      ]

  Quiet-attempts : {s t : Accounts} → Quiet s t → t.attempts ≡ s.attempts
  Quiet-attempts still = refl
  Quiet-attempts (admits users memberships) = refl
  Quiet-attempts (updates p f mild) = refl

  -- A request other than a login counts for nothing.
  other-Counts :
      (request : Request) (s : Accounts)
      → is_login request ≡ false
      → failures_of (serve request s).1 ≡ failures_of s
  other-Counts request s h =
      let (t, first, second) = serve-Settles request s h in
      ap (count (counts_against call.email call.ip_address call.checked_at))
        (Quiet-attempts second ∙ Quiet-attempts first)

  serve-Counts :
      (request : Request) (s : Accounts)
      → failures_of (serve request s).1
        ≡ failures_of s + bit (fails_like call (request, (serve request s).0))
  unfolding serve
  serve-Counts (logs_in other) s = login-Counts other s
  serve-Counts (bootstraps req) s = omega (arith, other-Counts (bootstraps req) s refl)
  serve-Counts (logs_out now cookie csrf_token) s =
      omega (arith, other-Counts (logs_out now cookie csrf_token) s refl)
  serve-Counts (asks_me now cookie new_csrf_token) s =
      omega (arith, other-Counts (asks_me now cookie new_csrf_token) s refl)
  serve-Counts (visits now cookie) s = omega (arith, other-Counts (visits now cookie) s refl)

  serve_all-Counts :
      (requests : List Request) (s : Accounts)
      → failures_of (serve_all requests s).1
        ≡ failures_of s + count (fails_like call) (serve_all requests s).0
  unfolding serve_all
  serve_all-Counts [] s = omega arith
  serve_all-Counts (request ∷ requests) s =
      omega (arith, serve-Counts request s, serve_all-Counts requests (serve request s).1)

-- Whatever requests a server has answered, a login that succeeds has behind it at most four
-- refused logins for the same address from the same place within the last 300 seconds.
pub login-throttled :
    ⦃env : Platform⦄ (requests : List Request) (s : Accounts) (call : Login)
    (tokens : UserSessionTokens)
    → (login call (serve_all requests s).1).0 ≡ no_content tokens
    → count (fails_like call) (serve_all requests s).0 ≤ 4
unfolding login is_login_locked
login-throttled ⦃env⦄ requests s call tokens h =
    elim (Bool-cases
      (is_login_locked call.email call.ip_address call.checked_at (serve_all requests s).1)) [
        | inl e ↦ absurd (ground arith)
        | inr e ↦ ground (arith, serve_all-Counts call requests s)
      ]
