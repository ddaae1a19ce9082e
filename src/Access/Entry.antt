-- ===== src/Access/Entry.antt =====
-- The tokens of a login let its user pass the guard that is called next.
use cv_match.Common.{
  ℕ, ◌<◌, ◌+◌, Bool, true, false, ◌≡◌, refl, inl, inr, some, List, [], ◌∷◌, ◌++◌, Bool-cases,
  is_some, find, arith, ◌&&◌, ◌==◌, ok, any, leb, ◌∙◌,
}
use cv_match.Common.Updates.{update_where, any_key-update_where}
use cv_match.Text.{Text, is_blank}
use cv_match.Access.{Platform, UserRow, Membership, UserSession, Accounts, user_from_row}
use cv_match.Access.Sessions.{
  UserSessionTokens, has_digest, revoke_at, unrevoked_of, new_user_session, get_user_by_session,
  verify_session_csrf, session_ttl, join_session, is_unrevoked, update_sessions, touch_at,
}
use cv_match.Access.Logins.{Login, login, no_content, get_user_for_login}
use cv_match.Access.Guards.{require_csrf_user, need_csrf}
use cv_match.Access.Joins.{HasKeys, login-Joins}
use cv_match.Access.Ended.{login-Enters}

-- A session at the end of the table whose digest no other has.
module _ (n : UserSession) (digest : ℕ) (is_n : has_digest digest n ≡ true) where
  find_last :
      (q : UserSession → Bool) (xs : List UserSession)
      → any (has_digest digest) xs ≡ false
      → q n ≡ true
      → find (λ x. has_digest digest x && q x) (xs ++ n ∷ []) ≡ some n
  find_last q [] free e = ground arith
  find_last q (x ∷ xs) free e = ground (arith, find_last q xs)

  find_new :
      (xs : List UserSession)
      → any (has_digest digest) xs ≡ false
      → find (has_digest digest) (xs ++ n ∷ []) ≡ some n
  find_new [] free = ground arith
  find_new (x ∷ xs) free = ground (arith, find_new xs)

  update_last :
      (f : UserSession → UserSession) (xs : List UserSession)
      → any (has_digest digest) xs ≡ false
      → update_where (has_digest digest) f (xs ++ n ∷ []) ≡ xs ++ f n ∷ []
  update_last f [] free = ground arith
  update_last f (x ∷ xs) free = ground (arith, update_last f xs)

module _ ⦃env : Platform⦄ (t : Accounts) (n : UserSession) (xs : List UserSession) (row : UserRow)
    (membership : Membership) (now : ℕ) (csrf_token : Text)
    (is_n : has_digest n.session_id n ≡ true) (free : any (has_digest n.session_id) xs ≡ false)
    (is_last : t.sessions ≡ xs ++ n ∷ []) (joins : join_session n t ≡ some (row, membership))
    (unrevoked : is_some n.revoked_at ≡ false) (enabled : is_some row.disabled_at ≡ false)
    (early : leb n.expires_at now ≡ false) (given : is_blank csrf_token ≡ false)
    (same_csrf : (n.csrf_token_digest == env.sha256 csrf_token) ≡ true) where
  last-verify :
      (u : Accounts) (m : UserSession)
      → u.sessions ≡ xs ++ m ∷ []
      → has_digest n.session_id m ≡ true
      → is_unrevoked m ≡ true
      → m.csrf_token_digest ≡ n.csrf_token_digest
      → verify_session_csrf n.session_id (some csrf_token) u ≡ true
  unfolding verify_session_csrf
  last-verify u m is_u same_id open_still same_digest =
      rw
        (given, is_u, find_last m n.session_id same_id is_unrevoked xs free open_still, same_digest)
        same_csrf

  last-require :
      (need_csrf
        (some n.session_id)
        (some csrf_token)
        (get_user_by_session true now (some n.session_id) t)).0
      ≡ ok (user_from_row row membership)
  unfolding get_user_by_session
  last-require = elim (Bool-cases (leb (n.last_seen_at + 60) now)) [
    | inl due ↦
        rw
          (
            is_last,
            find_new n n.session_id is_n xs free,
            joins,
            unrevoked,
            enabled,
            early,
            due,
            last-verify
                (update_sessions (has_digest n.session_id) (touch_at now)
                  (record t { sessions = xs ++ n ∷ [] }))
                (touch_at now n) (update_last n n.session_id is_n (touch_at now) xs free) is_n
                (rw unrevoked refl) refl,
          )
          refl
    | inr fresh ↦
        rw
          (
            is_last,
            find_new n n.session_id is_n xs free,
            joins,
            unrevoked,
            enabled,
            early,
            fresh,
            last-verify (record t { sessions = xs ++ n ∷ [] }) n refl is_n (rw unrevoked refl) refl,
          )
          refl
  ]

-- The tokens of a login are good in the tables that it leaves: called next, at any time before the
-- session runs out, the guard that asks for the session's cookie and for the CSRF token finds the
-- user who has logged in, when the primary keys hold and the CSRF token is not empty. A request
-- between them may renew the CSRF token or end the session.
pub login-require :
    ⦃env : Platform⦄ (call : Login) (s : Accounts) (tokens : UserSessionTokens) (row : UserRow)
    (membership : Membership) (now : ℕ)
    → HasKeys s
    → get_user_for_login call.email s ≡ some (row, membership)
    → (login call s).0 ≡ no_content tokens
    → now < call.issued_at + session_ttl
    → is_blank tokens.csrf_token ≡ false
    → (require_csrf_user now
        (some tokens.session_token)
        (some tokens.csrf_token)
        (login call s).1).0
      ≡ ok (user_from_row row membership)
unfolding require_csrf_user
login-require ⦃env⦄ call s tokens row membership now keys found h early given =
    let (enabled, enters) = login-Enters call s tokens row membership found h in
    let joins = login-Joins call.email s row membership keys found in
    rw (← enters.same_tokens) (
      last-require (login call s).1
        (new_user_session row.user_id membership.workspace_id call.tokens call.issued_at)
        (update_where (unrevoked_of row.user_id membership.workspace_id) (revoke_at call.issued_at)
          s.sessions)
        row membership now call.tokens.csrf_token (ground arith)
        (any_key-update_where (λ (session : UserSession). session.session_id)
            (unrevoked_of row.user_id membership.workspace_id) (revoke_at call.issued_at)
            (λ session. refl) (env.sha256 call.tokens.session_token) s.sessions
          ∙ enters.fresh)
        enters.sessions (rw (enters.users, enters.memberships, joins.0, joins.1) refl) refl enabled
        (ground arith) (rw enters.same_tokens given) (ground arith))
