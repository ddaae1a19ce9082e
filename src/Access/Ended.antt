-- ===== src/Access/Ended.antt =====
-- A later login of its user ends a session for good.
use cv_match.Common.{
  ℕ, Bool, true, ◌≡◌, refl, inl, inr, Option, some, List, [], ◌∷◌, ◌++◌, Bool-cases, is_some, find,
  arith, any, false,
}
use cv_match.Common.Updates.{update_where, find-update_where, updated}
use cv_match.Text.{Text}
use cv_match.Access.{Platform, UserRow, Membership, UserSession, Accounts}
use cv_match.Access.Sessions.{
  UserSessionTokens, create_user_session, has_digest, revoke_at, unrevoked_of, is_unrevoked,
  new_user_session,
}
use cv_match.Access.Logins.{
  Login, login, no_content, record_login_attempt, is_login_locked, get_user_for_login, check_user,
  let_in,
}
use cv_match.Access.Guards.{Request, serve_all}
use cv_match.Access.Retired.{
  found_revoked, revoked-append, serve_all-revoked, IsShutOut, revoked-IsShutOut,
}

module _ ⦃env : Platform⦄ (call : Login) (s : Accounts) (tokens : UserSessionTokens) where
  -- the table behind a login of the user in the workspace
  abbrev pub sessions_after : ℕ → ℕ → List UserSession
  sessions_after user_id workspace_id =
      update_where (unrevoked_of user_id workspace_id) (revoke_at call.issued_at) s.sessions
      ++ new_user_session user_id workspace_id call.tokens call.issued_at ∷ []

  -- A login that has succeeded, and its tables.
  pub record Enters (user_id workspace_id : ℕ) (t : Accounts) : Type 0 where
    pub fresh : any (has_digest (env.sha256 call.tokens.session_token)) s.sessions ≡ false
    pub same_tokens : call.tokens ≡ tokens
    pub sessions : t.sessions ≡ sessions_after user_id workspace_id
    pub users : t.users ≡ s.users
    pub memberships : t.memberships ≡ s.memberships

  let_in-Enters :
      (user_id workspace_id : ℕ)
      → (let_in call user_id
          (create_user_session user_id workspace_id call.tokens call.issued_at s)).0
        ≡ no_content tokens
      → Enters user_id workspace_id
          (let_in call user_id
            (create_user_session user_id workspace_id call.tokens call.issued_at s)).1
  unfolding create_user_session record_login_attempt
  let_in-Enters user_id workspace_id h =
      elim (Bool-cases (any (has_digest (env.sha256 call.tokens.session_token)) s.sessions)) [
        | inl e ↦ let h' = rw e at h in absurd (ground arith)
        | inr e ↦
            let h' = rw e at h in
            rw e (record {
              fresh = e;
              same_tokens = ground arith;
              sessions = refl;
              users = refl;
              memberships = refl;
            })
      ]

  check_user-Enters :
      (row : UserRow) (membership : Membership)
      → (check_user call (some (row, membership)) s).0 ≡ no_content tokens
      → (is_some row.disabled_at ≡ false)
        × Enters row.user_id membership.workspace_id (check_user call (some (row, membership)) s).1
  check_user-Enters row membership h = elim (Bool-cases (is_some row.disabled_at)) [
    | inl e ↦ let h' = rw e at h in absurd (ground arith)
    | inr e ↦
        let h' = rw e at h in
        elim (Bool-cases (env.verify_password call.password row.password_hash)) [
          | inl right ↦
              let k = rw right at h' in
              (e, rw (e, right) (let_in-Enters row.user_id membership.workspace_id k))
          | inr wrong ↦ let k = rw wrong at h' in absurd (ground arith)
        ]
  ]

  pub login-Enters :
      (row : UserRow) (membership : Membership)
      → get_user_for_login call.email s ≡ some (row, membership)
      → (login call s).0 ≡ no_content tokens
      → (is_some row.disabled_at ≡ false)
        × Enters row.user_id membership.workspace_id (login call s).1
  unfolding login
  login-Enters row membership found h =
      elim (Bool-cases (is_login_locked call.email call.ip_address call.checked_at s)) [
        | inl e ↦ let h' = rw e at h in absurd (ground arith)
        | inr e ↦
            let h' = rw (e, found) at h in
            let (enabled, enters) = check_user-Enters row membership h' in
            (enabled, rw (e, found) enters)
      ]

-- An UPDATE that revokes leaves a session revoked, if it meets every session that is not.
pub revoked_by :
    (p : UserSession → Bool) (now : ℕ) (session : UserSession)
    → (is_unrevoked session ≡ true → p session ≡ true)
    → found_revoked (updated p (revoke_at now) (some session)) ≡ true
revoked_by p now session h = elim (Bool-cases (p session)) [
  | inl e ↦ rw e refl
  | inr e ↦ rw e (ground arith)
]

-- A login that succeeds ends every older session of its user in that workspace: whatever requests
-- follow, and whenever the old cookie comes, no guard lets it pass.
pub login_retires :
    ⦃env : Platform⦄ (call : Login) (s : Accounts) (tokens : UserSessionTokens) (row : UserRow)
    (membership : Membership) (old : UserSession) (requests : List Request) (now : ℕ)
    (cookie : Text) (csrf_token : Option Text)
    → get_user_for_login call.email s ≡ some (row, membership)
    → (login call s).0 ≡ no_content tokens
    → find (has_digest old.session_id) s.sessions ≡ some old
    → old.user_id ≡ row.user_id
    → old.workspace_id ≡ membership.workspace_id
    → env.sha256 cookie ≡ old.session_id
    → IsShutOut now cookie csrf_token (serve_all requests (login call s).1).1
login_retires call s tokens row membership old requests now cookie csrf_token found h is_old
      same_user same_workspace is_cookie =
    revoked-IsShutOut old.session_id now cookie csrf_token _ is_cookie (
      serve_all-revoked old.session_id requests (login call s).1 (
        rw ((login-Enters call s tokens row membership found h).1.sessions) (
          revoked-append old.session_id
            (update_where (unrevoked_of row.user_id membership.workspace_id)
              (revoke_at call.issued_at) s.sessions)
            (new_user_session row.user_id membership.workspace_id call.tokens call.issued_at ∷ [])
            (rw
              (
                find-update_where (λ session. session.session_id)
                    (unrevoked_of row.user_id membership.workspace_id) (revoke_at call.issued_at)
                    (λ session. refl) old.session_id s.sessions,
                is_old,
              )
              (revoked_by (unrevoked_of row.user_id membership.workspace_id) call.issued_at old
                (λ open_still. ground arith))))))
