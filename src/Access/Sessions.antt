-- ===== src/Access/Sessions.antt =====
-- The login sessions of src/seektalent_ui/workbench_store.py: `create_user_session`,
-- `_get_user_by_session`, `revoke_user_session`, `rotate_session_csrf` and `verify_session_csrf`.
-- The foreign keys of a new session hold at its only caller, which has read both rows.
use cv_match.Common.{
  ℕ, ◌+◌, ◌*◌, Bool, true, false, ◌&&◌, ◌||◌, ◌==◌, leb, Option, none, some, List, [], ◌∷◌, ◌++◌,
  any, find, if◌then◌else◌, is_some, Result, ok, err,
}
use cv_match.Common.Updates.{update_where}
use cv_match.Text.{Text, is_blank}
use cv_match.Access.{
  Platform, UserRow, Membership, UserSession, Accounts, WorkbenchUser, user_from_row,
}

-- 12 hours
abbrev pub session_ttl : ℕ
session_ttl = 12 * 3600

pub record UserSessionTokens : Type 0 where
  pub session_token : Text
  pub csrf_token : Text

pub data AccessError : Type 0 where
  integrity value_error bootstrap_already_complete : AccessError

abbrev pub is_unrevoked : UserSession → Bool
is_unrevoked session = if is_some session.revoked_at then false else true

abbrev pub revoke_at : ℕ → UserSession → UserSession
revoke_at now session = record session { revoked_at = some now }

abbrev pub unrevoked_of : ℕ → ℕ → UserSession → Bool
unrevoked_of user_id workspace_id session =
    session.user_id == user_id && (session.workspace_id == workspace_id && is_unrevoked session)

abbrev pub has_digest : ℕ → UserSession → Bool
has_digest session_digest session = session.session_id == session_digest

abbrev pub update_sessions :
    (UserSession → Bool) → (UserSession → UserSession) → Accounts → Accounts
update_sessions p f s = record s { sessions = update_where p f s.sessions }

abbrev pub new_user_session : ⦃env : Platform⦄ → ℕ → ℕ → UserSessionTokens → ℕ → UserSession
new_user_session ⦃env⦄ user_id workspace_id tokens now = record {
  session_id = env.sha256 tokens.session_token;
  user_id = user_id;
  workspace_id = workspace_id;
  csrf_token_digest = env.sha256 tokens.csrf_token;
  issued_at = now;
  expires_at = now + session_ttl;
  revoked_at = none;
  last_seen_at = now;
}

-- The tokens are those that `secrets` draws. A digest that is there already breaks the primary
-- key, which rolls the UPDATE back.
unfoldable pub create_user_session :
    ⦃env : Platform⦄
    → ℕ
    → ℕ
    → UserSessionTokens
    → ℕ
    → Accounts
    → Result AccessError UserSessionTokens × Accounts
create_user_session ⦃env⦄ user_id workspace_id tokens now s =
    if any (has_digest (env.sha256 tokens.session_token)) s.sessions then (err integrity, s) else (
      ok tokens,
      record s {
        sessions =
            update_where (unrevoked_of user_id workspace_id) (revoke_at now) s.sessions
            ++ new_user_session user_id workspace_id tokens now ∷ [];
      },
    )

-- the join of a session with its user and the membership in its workspace
abbrev pub membership_of : ℕ → ℕ → List Membership → Option Membership
membership_of user_id workspace_id memberships =
    find (λ row. row.user_id == user_id && row.workspace_id == workspace_id) memberships

abbrev pub joined : Option UserRow → Option Membership → Option (UserRow × Membership)
joined none membership = none
joined (some row) none = none
joined (some row) (some membership) = some (row, membership)

abbrev pub join_session : UserSession → Accounts → Option (UserRow × Membership)
join_session session s =
    joined (find (λ row. row.user_id == session.user_id) s.users)
      (membership_of session.user_id session.workspace_id s.memberships)

abbrev pub touch_at : ℕ → UserSession → UserSession
touch_at now session = record session { last_seen_at = now }

abbrev pub authenticate :
    Bool
    → ℕ
    → UserSession
    → Option (UserRow × Membership)
    → Accounts
    → Option WorkbenchUser × Accounts
authenticate touch now session none s = (none, s)
authenticate touch now session (some (row, membership)) s =
    if is_some session.revoked_at || is_some row.disabled_at
    then (none, s)
    else (if leb session.expires_at now then (none, s) else (
      some (user_from_row row membership),
      if touch && leb (session.last_seen_at + 60) now
          then update_sessions (has_digest session.session_id) (touch_at now) s
          else s,
    ))

abbrev pub authenticate_found :
    Bool → ℕ → Option UserSession → Accounts → Option WorkbenchUser × Accounts
authenticate_found touch now none s = (none, s)
authenticate_found touch now (some session) s =
    authenticate touch now session (join_session session s) s

-- `_get_user_by_session`: the user whose session is open, and the time of the visit, which is
-- written once a minute.
unfoldable pub get_user_by_session :
    Bool → ℕ → Option ℕ → Accounts → Option WorkbenchUser × Accounts
get_user_by_session touch now none s = (none, s)
get_user_by_session touch now (some session_digest) s =
    authenticate_found touch now (find (has_digest session_digest) s.sessions) s

unfoldable pub revoke_user_session : ℕ → Option ℕ → Accounts → Accounts
revoke_user_session now none s = s
revoke_user_session now (some session_digest) s =
    update_sessions (λ session. has_digest session_digest session && is_unrevoked session)
      (revoke_at now) s

abbrev pub renew_csrf : ℕ → UserSession → UserSession
renew_csrf csrf_digest session = record session { csrf_token_digest = csrf_digest }

unfoldable pub rotate_session_csrf : ⦃env : Platform⦄ → Text → ℕ → Accounts → Accounts
rotate_session_csrf ⦃env⦄ csrf_token session_digest s =
    update_sessions (λ session. has_digest session_digest session && is_unrevoked session)
      (renew_csrf (env.sha256 csrf_token)) s

abbrev pub csrf_matches : ⦃env : Platform⦄ → Text → Option UserSession → Bool
csrf_matches ⦃env⦄ csrf_token none = false
csrf_matches ⦃env⦄ csrf_token (some session) = session.csrf_token_digest == env.sha256 csrf_token

unfoldable pub verify_session_csrf : ⦃env : Platform⦄ → ℕ → Option Text → Accounts → Bool
verify_session_csrf ⦃env⦄ session_digest none s = false
verify_session_csrf ⦃env⦄ session_digest (some csrf_token) s =
    if is_blank csrf_token
    then false
    else csrf_matches csrf_token
        (find (λ session. has_digest session_digest session && is_unrevoked session) s.sessions)
