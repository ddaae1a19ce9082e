-- ===== src/Access/Quiet.antt =====
-- What the requests other than a login do to the tables: they may add an account, and they
-- change sessions in place.
use cv_match.Common.{
  ℕ, Bool, true, false, ◌≡◌, refl, inl, inr, Option, none, some, List, [], ◌∷◌, Bool-cases, is_some,
  find, leb, arith, ◌&&◌, ◌||◌, ◌+◌, Result, ok, err,
}
use cv_match.Text.{Text, is_blank, strip}
use cv_match.Access.{Platform, UserRow, Membership, UserSession, Accounts, WorkbenchUser}
use cv_match.Access.Sessions.{
  get_user_by_session, authenticate, authenticate_found, has_digest, join_session,
  revoke_user_session, rotate_session_csrf, verify_session_csrf, update_sessions, touch_at,
  revoke_at, renew_csrf,
}
use cv_match.Access.Logins.{normalize_email}
use cv_match.Access.Setup.{Bootstrap, bootstrap_admin, insert_admin}
use cv_match.Access.Guards.{
  Request, bootstraps, logs_in, logs_out, asks_me, visits, serve, require_current_user,
  require_csrf_user, digest_or_none, need_user, need_csrf, Denial, logout, me, visit, rotate,
  bootstrap_answer,
}

-- A change in place that keeps the digest of a session and never takes a revocation back.
abbrev pub IsMild : (UserSession → UserSession) → Type 0
IsMild f =
    (session : UserSession)
    → ((f session).session_id ≡ session.session_id)
      × (is_some session.revoked_at ≡ true → is_some (f session).revoked_at ≡ true)

pub data Quiet : Accounts → Accounts → Type 0 where
  still : {s : Accounts} → Quiet s s
  admits :
      {s : Accounts} (users : List UserRow) (memberships : List Membership)
      → Quiet s (record s { users = users; memberships = memberships })
  updates :
      {s : Accounts} (p : UserSession → Bool) (f : UserSession → UserSession)
      → IsMild f
      → Quiet s (update_sessions p f s)

-- At most two changes: the visit is noted, and then the route does its work.
abbrev pub Settles : Accounts → Accounts → Type 0
Settles s u = (t : Accounts) × Quiet s t × Quiet t u

module _ ⦃env : Platform⦄ where
  authenticate-Quiet :
      (touch : Bool) (now : ℕ) (session : UserSession) (row : Option (UserRow × Membership))
      (s : Accounts)
      → Quiet s (authenticate touch now session row s).1
  authenticate-Quiet touch now session none s = still
  authenticate-Quiet touch now session (some (row, membership)) s =
      elim (Bool-cases (is_some session.revoked_at || is_some row.disabled_at)) [
        | inl e ↦ rw e still
        | inr e ↦ elim (Bool-cases (leb session.expires_at now)) [
          | inl over ↦ rw (e, over) still
          | inr on ↦ elim (Bool-cases (touch && leb (session.last_seen_at + 60) now)) [
            | inl due ↦
                rw (e, on, due)
                  (updates (has_digest session.session_id) (touch_at now) (λ row. (refl, λ h. h)))
            | inr fresh ↦ rw (e, on, fresh) still
          ]
        ]
      ]

  get_user-Quiet :
      (touch : Bool) (now : ℕ) (digest : Option ℕ) (s : Accounts)
      → Quiet s (get_user_by_session touch now digest s).1
  unfolding get_user_by_session
  get_user-Quiet touch now none s = still
  get_user-Quiet touch now (some digest) s = found-Quiet (find (has_digest digest) s.sessions)
    where
      found-Quiet :
          (session : Option UserSession) → Quiet s (authenticate_found touch now session s).1
      found-Quiet none = still
      found-Quiet (some session) = authenticate-Quiet touch now session (join_session session s) s

  bootstrap-Quiet :
      (req : Bootstrap) (s : Accounts) → Quiet s (bootstrap_answer (bootstrap_admin req s)).1
  unfolding bootstrap_admin
  bootstrap-Quiet req s =
      elim (Bool-cases (
        is_blank (normalize_email req.email)
        || (is_blank (strip req.display_name) || is_blank req.password_hash))) [
          | inl e ↦ rw e still
          | inr e ↦ rw e (insert-Quiet s.users)
        ]
    where
      insert-Quiet :
          (users : List UserRow) → Quiet s (bootstrap_answer (insert_admin req s users)).1
      insert-Quiet [] = admits _ _
      insert-Quiet (row ∷ users) = still

  revoke-Quiet :
      (now : ℕ) (digest : Option ℕ) (s : Accounts) → Quiet s (revoke_user_session now digest s)
  unfolding revoke_user_session
  revoke-Quiet now none s = still
  revoke-Quiet now (some digest) s = updates _ (revoke_at now) (λ row. (refl, λ h. refl))

  rotate-Quiet :
      (digest : Option ℕ) (csrf_token : Text) (s : Accounts) → Quiet s (rotate digest csrf_token s)
  unfolding rotate_session_csrf
  rotate-Quiet none csrf_token s = still
  rotate-Quiet (some digest) csrf_token s =
      updates _ (renew_csrf (env.sha256 csrf_token)) (λ row. (refl, λ h. h))

  csrf-Quiet :
      (now : ℕ) (cookie csrf_token : Option Text) (s : Accounts)
      → Quiet s (require_csrf_user now cookie csrf_token s).1
  unfolding require_csrf_user
  csrf-Quiet now cookie csrf_token s =
      need-Quiet (digest_or_none cookie) (get_user_by_session true now (digest_or_none cookie) s)
        (get_user-Quiet true now (digest_or_none cookie) s)
    where
      need-Quiet :
          (digest : Option ℕ) (found : Option WorkbenchUser × Accounts)
          → Quiet s found.1
          → Quiet s (need_csrf digest csrf_token found).1
      need-Quiet digest (none, t) h = h
      need-Quiet none (some user, t) h = h
      need-Quiet (some digest) (some user, t) h =
          elim (Bool-cases (verify_session_csrf digest csrf_token t)) [
            | inl e ↦ rw e h
            | inr e ↦ rw e h
          ]

  current-Quiet :
      (now : ℕ) (cookie : Option Text) (s : Accounts)
      → Quiet s (require_current_user now cookie s).1
  unfolding require_current_user
  current-Quiet now cookie s =
      need-Quiet (get_user_by_session true now (digest_or_none cookie) s)
        (get_user-Quiet true now (digest_or_none cookie) s)
    where
      need-Quiet :
          (found : Option WorkbenchUser × Accounts) → Quiet s found.1 → Quiet s (need_user found).1
      need-Quiet (none, t) h = h
      need-Quiet (some user, t) h = h

  logout-Settles :
      (now : ℕ) (cookie : Option Text) (s : Accounts)
      (guarded : Result Denial WorkbenchUser × Accounts)
      → Quiet s guarded.1
      → Settles s (logout now cookie guarded).1
  logout-Settles now cookie s (err denial, t) h = (t, h, still)
  logout-Settles now cookie s (ok user, t) h = (t, h, revoke-Quiet now (digest_or_none cookie) t)

  me-Settles :
      (cookie : Option Text) (csrf_token : Text) (s : Accounts)
      (guarded : Result Denial WorkbenchUser × Accounts)
      → Quiet s guarded.1
      → Settles s (me cookie csrf_token guarded).1
  me-Settles cookie csrf_token s (err denial, t) h = (t, h, still)
  me-Settles cookie csrf_token s (ok user, t) h =
      (t, h, rotate-Quiet (digest_or_none cookie) csrf_token t)

  visit-Settles :
      (s : Accounts) (guarded : Result Denial WorkbenchUser × Accounts)
      → Quiet s guarded.1
      → Settles s (visit guarded).1
  visit-Settles s (err denial, t) h = (t, h, still)
  visit-Settles s (ok user, t) h = (t, h, still)

  abbrev pub is_login : Request → Bool
  is_login (logs_in call) = true
  is_login _ = false

  pub serve-Settles :
      (request : Request) (s : Accounts) → is_login request ≡ false → Settles s (serve request s).1
  unfolding serve bootstrap_admin
  serve-Settles (bootstraps req) s h = elim (Bool-cases req.is_loopback) [
    | inl e ↦ rw e (s, still, bootstrap-Quiet req s)
    | inr e ↦ rw e (s, still, still)
  ]
  serve-Settles (logs_in call) s h = absurd (ground arith)
  serve-Settles (logs_out now cookie csrf_token) s h =
      logout-Settles now cookie s (require_csrf_user now cookie csrf_token s)
        (csrf-Quiet now cookie csrf_token s)
  serve-Settles (asks_me now cookie new_csrf_token) s h =
      me-Settles cookie new_csrf_token s (require_current_user now cookie s)
        (current-Quiet now cookie s)
  serve-Settles (visits now cookie) s h =
      visit-Settles s (require_current_user now cookie s) (current-Quiet now cookie s)
