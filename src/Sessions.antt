-- ===== src/Sessions.antt =====
-- apps/api/src/core/sessions/sessions.service.ts: refresh tokens and the sessions that keep their
-- hashes. Hashing, signing and the configured lifetime are parameters (`Config`); the random bytes
-- of a new token and `Date.now()` are arguments. Audit rows are written outside any transaction.
pub mod Rotation
pub mod Revoked
pub mod Sequences
use saziqo_platform.Prelude.{
  ℕ, ◌+◌, Bool, true, false, not, ◌&&◌, Option, none, some, List, [], ◌∷◌, ltb, ◌==◌, if◌then◌else◌,
  Text, codes, text_eq, is_some, get_or, length, filter,
}
use saziqo_platform.Action.{
  Action, Result, ok, err, Thrown, http, plain, ErrorCode, unauthorized_status, not_found_status,
  pure, throw, or_throw, throw_if, gets, modify, ◌>>=◌, ◌>>◌,
}
use saziqo_platform.Table.{Table, HasId, find_unique, find_first, update, update_many, insert}

-- `model Session`
pub record Session : Type 0 where
  pub id : ℕ
  pub user_id : ℕ
  pub refresh_token_hash : Text
  pub user_agent : Option Text
  pub ip_address : Option Text
  pub expires_at : ℕ
  pub revoked_at : Option ℕ

-- The audit row of a replay.
pub record ReplayDetected : Type 0 where
  pub actor_user_id : ℕ
  pub session_id : ℕ

-- The notification of a revocation by an admin.
pub record SessionRevoked : Type 0 where
  pub user_id : ℕ
  pub user_agent : Text

pub record SessionStore : Type 0 where
  pub sessions : Table Session
  pub audits : List ReplayDetected
  pub notified : List SessionRevoked

instance abbrev pub session_key : HasId Session
session_key = record { id_of = λ s. s.id }

pub record Config : Type 0 where
  pub sha256 : Text → Text
  pub sign_access_token : ℕ → Text
  pub refresh_ttl : ℕ
  pub is_production : Bool

-- `RefreshCookie`
pub record RefreshCookie : Type 0 where
  pub name : Text
  pub value : Text
  pub http_only : Bool
  pub secure : Bool
  pub same_site : Text
  pub path : Text
  pub max_age : ℕ

-- `IssuedTokens`
pub record IssuedTokens : Type 0 where
  pub access_token : Text
  pub refresh_token : Text
  pub refresh_cookie : RefreshCookie
  pub session_id : ℕ

-- `buildCookie`
abbrev pub build_cookie : Config → Text → ℕ → RefreshCookie
build_cookie c value max_age = record {
  name = codes "refresh_token";
  value = value;
  http_only = true;
  secure = c.is_production;
  same_site = codes "strict";
  path = codes "/api/v1/auth/refresh";
  max_age = max_age;
}

abbrev pub has_hash : Text → Session → Bool
has_hash hash s = text_eq hash s.refresh_token_hash

abbrev pub is_active : Session → Bool
is_active s = not (is_some s.revoked_at)

abbrev pub revoked : ℕ → Session → Session
revoked now s = record s { revoked_at = some now }

abbrev pub with_sessions : (List Session → List Session) → SessionStore → SessionStore
with_sessions f s = record s {
  sessions = record { rows = f s.sessions.rows; next = s.sessions.next };
}

abbrev pub new_session : Config → Text → ℕ → ℕ → Option Text → Option Text → ℕ → Session
new_session c raw now user_id user_agent ip_address i = record {
  id = i;
  user_id = user_id;
  refresh_token_hash = c.sha256 raw;
  user_agent = user_agent;
  ip_address = ip_address;
  expires_at = now + c.refresh_ttl;
  revoked_at = none;
}

abbrev pub created : (ℕ → Session) → Option Session → Action SessionStore Session
created mk (some _) s = (err (plain (codes "P2002")), s)
created mk none s = (ok (mk s.sessions.next), record s { sessions = insert mk s.sessions })

-- `session.create({ data })`: the hash is `@unique`, so it throws if another session has it.
unfoldable pub create_session : Text → (ℕ → Session) → Action SessionStore Session
create_session hash mk s = created mk (find_first (has_hash hash) s.sessions.rows) s

abbrev pub issued : Config → Text → Session → IssuedTokens
issued c raw session = record {
  access_token = c.sign_access_token session.user_id;
  refresh_token = raw;
  refresh_cookie = build_cookie c raw c.refresh_ttl;
  session_id = session.id;
}

-- `issueTokens`
unfoldable pub issue_tokens :
    Config → Text → ℕ → ℕ → Option Text → Option Text → Action SessionStore IssuedTokens
unfolding create_session
issue_tokens c raw now user_id user_agent ip_address = do
  session ← create_session (c.sha256 raw) (new_session c raw now user_id user_agent ip_address)
  pure (issued c raw session)

abbrev pub updated : ℕ → ℕ → Option Session → Action SessionStore (Unit {0})
updated i now none s = (err (plain (codes "P2025")), s)
updated i now (some _) s = (ok tt, with_sessions (update i (revoked now)) s)

-- `session.update({ where: { id }, data: { revokedAt } })`, which is `revokeSession`.
unfoldable pub revoke_session : ℕ → ℕ → Action SessionStore (Unit {0})
revoke_session now i s = updated i now (find_unique i s.sessions.rows) s

-- `userId, revokedAt: null`
abbrev pub is_active_of : ℕ → Session → Bool
is_active_of user_id s = s.user_id == user_id && is_active s

-- `revokeAllForUser`
unfoldable pub revoke_all_for_user : ℕ → ℕ → Action SessionStore ℕ
revoke_all_for_user now user_id s = (
  ok (length (filter (is_active_of user_id) s.sessions.rows)),
  with_sessions (update_many (is_active_of user_id) (revoked now)) s,
)

-- `revokeByRefreshToken`
unfoldable pub revoke_by_refresh_token : Config → ℕ → Text → Action SessionStore (Unit {0})
revoke_by_refresh_token c now token =
    modify
      (with_sessions (update_many (λ s. has_hash (c.sha256 token) s && is_active s) (revoked now)))

-- The Persian for "unknown".
abbrev pub unknown_agent : Text
unknown_agent = 1606 ∷ 1575 ∷ 1588 ∷ 1606 ∷ 1575 ∷ 1587 ∷ []

-- `revokeOne`
unfoldable pub revoke_one : ℕ → ℕ → ℕ → Bool → Action SessionStore (Unit {0})
unfolding revoke_session
revoke_one now session_id user_id admin_initiated = do
  row ← gets (λ s. find_unique session_id s.sessions.rows)
  session ← or_throw row (http ErrorCode.not_found not_found_status)
  throw_if (not (session.user_id == user_id)) (http ErrorCode.not_found not_found_status)
  revoke_session now session_id
  modify (λ s.
      if admin_initiated
      then record s {
        notified =
            record { user_id = user_id; user_agent = get_or session.user_agent unknown_agent }
            ∷ s.notified;
      }
      else s)

-- `findActive`
unfoldable pub find_active : ℕ → ℕ → SessionStore → List Session
find_active now user_id s =
    filter (λ x. is_active_of user_id x && ltb now x.expires_at) s.sessions.rows

-- A transaction on the sessions: a throw rolls them back, and the audit rows stay.
abbrev pub transaction_on_sessions : {A : Type 0} → Action SessionStore A → Action SessionStore A
transaction_on_sessions m s =
    let (r, t) = m s in
    elim r [ ok a ↦ (ok a, t) | err e ↦ (err e, record t { sessions = s.sessions }) ]

abbrev pub audit_replay : Session → Action SessionStore (Unit {0})
audit_replay session = modify (λ s. record s {
  audits = record { actor_user_id = session.user_id; session_id = session.id } ∷ s.audits;
})

-- The three branches behind the look-up.
unfoldable pub rotate_found : Config → Text → ℕ → Session → Action SessionStore IssuedTokens
unfolding revoke_session create_session revoke_all_for_user
rotate_found c raw now session =
    if is_some session.revoked_at
    then (do
      n ← revoke_all_for_user now session.user_id
      audit_replay session
      throw (http ErrorCode.session_replay unauthorized_status))
    else if ltb session.expires_at now
    then (do
      revoke_session now session.id
      throw (http ErrorCode.session_expired unauthorized_status))
    else (do
      revoke_session now session.id
      fresh ←
          create_session (c.sha256 raw)
            (new_session c raw now session.user_id session.user_agent session.ip_address)
      pure (issued c raw fresh))

unfoldable pub rotate_in_transaction : Config → Text → ℕ → Text → Action SessionStore IssuedTokens
unfolding rotate_found
rotate_in_transaction c raw now token = do
  row ← gets (λ s. find_first (has_hash (c.sha256 token)) s.sessions.rows)
  session ← or_throw row (http ErrorCode.session_invalid unauthorized_status)
  rotate_found c raw now session

-- `rotateRefreshToken`
unfoldable pub rotate_refresh_token : Config → Text → ℕ → Text → Action SessionStore IssuedTokens
unfolding rotate_in_transaction
rotate_refresh_token c raw now token =
    transaction_on_sessions (rotate_in_transaction c raw now token)
