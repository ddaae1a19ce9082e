-- ===== src/Access/Retired.antt =====
-- A session that is revoked stays revoked, and no guard of src/seektalent_ui/auth.py lets it pass.
use cv_match.Common.{
  ℕ, Bool, true, false, ◌≡◌, refl, inl, inr, Option, none, some, List, [], ◌∷◌, Bool-cases, is_some,
  find, arith, err, any, ◌++◌,
}
use cv_match.Common.Updates.{update_where, find-update_where, updated}
use cv_match.Text.{Text}
use cv_match.Access.{Platform, UserRow, Membership, UserSession, Accounts}
use cv_match.Access.Sessions.{
  create_user_session, get_user_by_session, authenticate, authenticate_found, has_digest,
  join_session, revoke_at, unrevoked_of, new_user_session,
}
use cv_match.Access.Logins.{
  Login, login, record_login_attempt, is_login_locked, get_user_for_login, check_user, let_in,
}
use cv_match.Access.Guards.{
  Request, bootstraps, logs_in, logs_out, asks_me, visits, serve, serve_all, require_current_user,
  require_current_user_readonly, require_csrf_user, authentication_required,
}
use cv_match.Access.Quiet.{IsMild, Quiet, still, admits, updates, serve-Settles, is_login}

abbrev pub found_revoked : Option UserSession → Bool
found_revoked none = false
found_revoked (some session) = is_some session.revoked_at

abbrev pub revoked : ℕ → List UserSession → Bool
revoked digest sessions = found_revoked (find (has_digest digest) sessions)

-- Neither a guard that reads, nor one that notes the visit, nor one that asks for the CSRF
-- token as well, lets the cookie pass.
abbrev pub IsShutOut : ⦃env : Platform⦄ → ℕ → Text → Option Text → Accounts → Type 0
IsShutOut now cookie csrf_token s =
    (require_current_user now (some cookie) s ≡ (err authentication_required, s))
    × (require_current_user_readonly now (some cookie) s ≡ (err authentication_required, s))
    × (require_csrf_user now (some cookie) csrf_token s ≡ (err authentication_required, s))

module _ (digest : ℕ) where
  found-updated :
      (p : UserSession → Bool) (f : UserSession → UserSession)
      → IsMild f
      → (session : Option UserSession) → found_revoked session ≡ true
      → found_revoked (updated p f session) ≡ true
  found-updated p f mild none h = h
  found-updated p f mild (some session) h = elim (Bool-cases (p session)) [
    | inl e ↦ rw e ((mild session).1 h)
    | inr e ↦ rw e h
  ]

  revoked-update_where :
      (p : UserSession → Bool) (f : UserSession → UserSession)
      → IsMild f
      → (sessions : List UserSession) → revoked digest sessions ≡ true
      → revoked digest (update_where p f sessions) ≡ true
  revoked-update_where p f mild sessions h =
      rw
        (find-update_where (λ session. session.session_id) p f (λ session. (mild session).0) digest
          sessions)
        (found-updated p f mild (find (has_digest digest) sessions) h)

  pub revoked-append :
      (sessions more : List UserSession)
      → revoked digest sessions ≡ true
      → revoked digest (sessions ++ more) ≡ true
  revoked-append [] more h = absurd (ground arith)
  revoked-append (session ∷ sessions) more h = elim (Bool-cases (has_digest digest session)) [
    | inl e ↦ ground arith
    | inr e ↦ ground (arith, revoked-append sessions more)
  ]

  Quiet-revoked :
      {s t : Accounts}
      → Quiet s t
      → revoked digest s.sessions ≡ true
      → revoked digest t.sessions ≡ true
  Quiet-revoked still h = h
  Quiet-revoked (admits users memberships) h = h
  Quiet-revoked {s} (updates p f mild) h = revoked-update_where p f mild s.sessions h

  module _ ⦃env : Platform⦄ where
    create-revoked :
        (user_id workspace_id : ℕ) (call : Login) (s : Accounts)
        → revoked digest s.sessions ≡ true
        → revoked digest
            (let_in call user_id
              (create_user_session user_id workspace_id call.tokens call.issued_at s)).1.sessions
          ≡ true
    unfolding create_user_session record_login_attempt
    create-revoked user_id workspace_id call s h =
        elim (Bool-cases (any (has_digest (env.sha256 call.tokens.session_token)) s.sessions)) [
          | inl e ↦ rw e h
          | inr e ↦ rw e (
              revoked-append
                (update_where (unrevoked_of user_id workspace_id) (revoke_at call.issued_at)
                  s.sessions)
                (new_user_session user_id workspace_id call.tokens call.issued_at ∷ [])
                (revoked-update_where _ _ (λ session. (refl, λ k. refl)) s.sessions h))
        ]

    check_user-revoked :
        (call : Login) (row : Option (UserRow × Membership)) (s : Accounts)
        → revoked digest s.sessions ≡ true
        → revoked digest (check_user call row s).1.sessions ≡ true
    unfolding record_login_attempt
    check_user-revoked call none s h = h
    check_user-revoked call (some (row, membership)) s h =
        elim (Bool-cases (is_some row.disabled_at)) [
          | inl e ↦ rw e h
          | inr e ↦ elim (Bool-cases (env.verify_password call.password row.password_hash)) [
            | inl right ↦
                rw (e, right) (create-revoked row.user_id membership.workspace_id call s h)
            | inr wrong ↦ rw (e, wrong) h
          ]
        ]

    login-revoked :
        (call : Login) (s : Accounts)
        → revoked digest s.sessions ≡ true
        → revoked digest (login call s).1.sessions ≡ true
    unfolding login record_login_attempt
    login-revoked call s h =
        elim (Bool-cases (is_login_locked call.email call.ip_address call.checked_at s)) [
          | inl e ↦ rw e h
          | inr e ↦ rw e (check_user-revoked call (get_user_for_login call.email s) s h)
        ]

    other-revoked :
        (request : Request) (s : Accounts)
        → is_login request ≡ false
        → revoked digest s.sessions ≡ true
        → revoked digest (serve request s).1.sessions ≡ true
    other-revoked request s e h =
        let (t, first, second) = serve-Settles request s e in
        Quiet-revoked second (Quiet-revoked first h)

    serve-revoked :
        (request : Request) (s : Accounts)
        → revoked digest s.sessions ≡ true
        → revoked digest (serve request s).1.sessions ≡ true
    unfolding serve
    serve-revoked (logs_in call) s h = login-revoked call s h
    serve-revoked (bootstraps req) s h = other-revoked (bootstraps req) s refl h
    serve-revoked (logs_out now cookie csrf_token) s h =
        other-revoked (logs_out now cookie csrf_token) s refl h
    serve-revoked (asks_me now cookie new_csrf_token) s h =
        other-revoked (asks_me now cookie new_csrf_token) s refl h
    serve-revoked (visits now cookie) s h = other-revoked (visits now cookie) s refl h

    pub serve_all-revoked :
        (requests : List Request) (s : Accounts)
        → revoked digest s.sessions ≡ true
        → revoked digest (serve_all requests s).1.sessions ≡ true
    unfolding serve_all
    serve_all-revoked [] s h = h
    serve_all-revoked (request ∷ requests) s h =
        serve_all-revoked requests (serve request s).1 (serve-revoked request s h)

    get_user-revoked :
        (touch : Bool) (now : ℕ) (s : Accounts)
        → revoked digest s.sessions ≡ true
        → get_user_by_session touch now (some digest) s ≡ (none, s)
    unfolding get_user_by_session
    get_user-revoked touch now s h = found-refused (find (has_digest digest) s.sessions) h
      where
        row-refused :
            (session : UserSession) (row : Option (UserRow × Membership))
            → is_some session.revoked_at ≡ true
            → authenticate touch now session row s ≡ (none, s)
        row-refused session none k = refl
        row-refused session (some (row, membership)) k = rw k refl

        found-refused :
            (session : Option UserSession)
            → found_revoked session ≡ true
            → authenticate_found touch now session s ≡ (none, s)
        found-refused none k = refl
        found-refused (some session) k = row-refused session (join_session session s) k

    pub revoked-IsShutOut :
        (now : ℕ) (cookie : Text) (csrf_token : Option Text) (s : Accounts)
        → env.sha256 cookie ≡ digest
        → revoked digest s.sessions ≡ true
        → IsShutOut now cookie csrf_token s
    unfolding require_current_user require_current_user_readonly require_csrf_user
    revoked-IsShutOut now cookie csrf_token s e h =
        rw (e, get_user-revoked true now s h, get_user-revoked false now s h) (refl, refl, refl)
