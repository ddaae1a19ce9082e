-- ===== src/Access/LoggedOut.antt =====
-- A logout ends its session for good.
use cv_match.Common.{
  ℕ, true, ◌≡◌, refl, inl, inr, Option, some, List, [], ◌∷◌, Bool-cases, find, arith, any, Result,
  ◌&&◌, ok, Option-cases, ap, any-eq-find, none, find-eq-some, err,
}
use cv_match.Common.Updates.{find-update_where}
use cv_match.Text.{Text}
use cv_match.Access.{Platform, UserSession, Accounts, WorkbenchUser}
use cv_match.Access.Sessions.{
  has_digest, revoke_at, is_unrevoked, verify_session_csrf, revoke_user_session, csrf_matches,
  get_user_by_session,
}
use cv_match.Access.Guards.{
  Request, serve_all, serve, need_csrf, Denial, require_csrf_user, logs_out, logout, logged_out,
}
use cv_match.Access.Retired.{serve_all-revoked, IsShutOut, revoked-IsShutOut, revoked}
use cv_match.Access.Ended.{revoked_by}

module _ ⦃env : Platform⦄ (digest : ℕ) where
  verify-any :
      (csrf_token : Option Text) (t : Accounts)
      → verify_session_csrf digest csrf_token t ≡ true
      → any (has_digest digest) t.sessions ≡ true
  unfolding verify_session_csrf
  verify-any none t h = absurd (ground arith)
  verify-any (some csrf_token) t h = some_match t.sessions (ground arith)
    where
      some_match :
          (xs : List UserSession)
          → csrf_matches csrf_token
              (find (λ session. has_digest digest session && is_unrevoked session) xs)
            ≡ true
          → any (has_digest digest) xs ≡ true
      some_match [] k = absurd (ground arith)
      some_match (x ∷ xs) k = elim (Bool-cases (has_digest digest x)) [
        | inl e ↦ rw e refl
        | inr e ↦ let k' = rw e at k in rw e (some_match xs k')
      ]

  guard-any :
      (csrf_token : Option Text) (found : Option WorkbenchUser × Accounts) (user : WorkbenchUser)
      (t : Accounts)
      → need_csrf (some digest) csrf_token found ≡ (ok user, t)
      → any (has_digest digest) t.sessions ≡ true
  guard-any csrf_token (none, u) user t h = absurd (ground arith)
  guard-any csrf_token (some v, u) user t h =
      elim (Bool-cases (verify_session_csrf digest csrf_token u)) [
        | inl e ↦
            let h' = rw e at h in
            let same : u ≡ t = ap (λ (p : Result Denial WorkbenchUser × Accounts). p.1) h' in
            rw (← same) (verify-any csrf_token u e)
        | inr e ↦ let h' = rw e at h in absurd (ground arith)
      ]

  revoke-revoked :
      (now : ℕ) (t : Accounts)
      → any (has_digest digest) t.sessions ≡ true
      → revoked digest (revoke_user_session now (some digest) t).sessions ≡ true
  unfolding revoke_user_session
  revoke-revoked now t h = elim (Option-cases (find (has_digest digest) t.sessions)) [
    | inl e ↦ absurd (ground (arith, any-eq-find (has_digest digest) t.sessions))
    | inr (session, e) ↦
        let here : has_digest digest session ≡ true =
          find-eq-some (has_digest digest) t.sessions session e in
        rw
          (
            find-update_where (λ (row : UserSession). row.session_id)
                (λ row. has_digest digest row && is_unrevoked row) (revoke_at now) (λ row. refl)
                digest t.sessions,
            e,
          )
          (revoked_by (λ row. has_digest digest row && is_unrevoked row) now session
            (λ open_still. ground arith))
  ]

  logout-revoked :
      (now : ℕ) (cookie : Text) (guarded : Result Denial WorkbenchUser × Accounts)
      → env.sha256 cookie ≡ digest
      → ((user : WorkbenchUser) (t : Accounts)
          → guarded ≡ (ok user, t)
          → any (has_digest digest) t.sessions ≡ true)
      → (logout now (some cookie) guarded).0 ≡ logged_out
      → revoked digest (logout now (some cookie) guarded).1.sessions ≡ true
  logout-revoked now cookie (err denial, t) is_cookie found h = absurd (ground arith)
  logout-revoked now cookie (ok user, t) is_cookie found h =
      rw is_cookie (revoke-revoked now t (found user t refl))

-- A logout that is answered as done is final: whatever requests follow, no guard lets the cookie
-- of the session pass again, whenever it comes.
pub logout_final :
    ⦃env : Platform⦄ (s : Accounts) (now : ℕ) (cookie : Text) (csrf_token : Option Text)
    (requests : List Request) (later : ℕ) (other_token : Option Text)
    → (serve (logs_out now (some cookie) csrf_token) s).0 ≡ logged_out
    → IsShutOut later cookie other_token
        (serve_all requests (serve (logs_out now (some cookie) csrf_token) s).1).1
unfolding serve require_csrf_user
logout_final ⦃env⦄ s now cookie csrf_token requests later other_token h =
    revoked-IsShutOut (env.sha256 cookie) later cookie other_token _ refl (
      serve_all-revoked (env.sha256 cookie) requests
        (serve (logs_out now (some cookie) csrf_token) s).1
        (logout-revoked (env.sha256 cookie) now cookie
          (require_csrf_user now (some cookie) csrf_token s) refl
          (λ user t e.
            guard-any (env.sha256 cookie) csrf_token
              (get_user_by_session true now (some (env.sha256 cookie)) s) user t e)
          h))
