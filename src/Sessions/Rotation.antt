-- ===== src/Sessions/Rotation.antt =====
-- What `rotateRefreshToken` of apps/api/src/core/sessions/sessions.service.ts returns and leaves
-- behind.
use saziqo_platform.Prelude.{
  le_or_lt_ℕ, ℕ, ◌≤◌, ◌<◌, ◌≡◌, refl, none, some, ◌∷◌, arith, Text, codes, inl, inr, ◌⊎◌,
  Option-cases,
}
use saziqo_platform.Action.{ok, err, Thrown, http, plain, ErrorCode, unauthorized_status}
use saziqo_platform.Table.{find_first, find_unique, update}
use saziqo_platform.Sessions.{
  Session, SessionStore, Config, session_key, has_hash, revoked, new_session, issued,
  rotate_refresh_token,
}

-- The new session of a rotation.
abbrev pub successor : Config → Text → ℕ → Session → SessionStore → Session
successor c raw now old s =
    new_session c raw now old.user_id old.user_agent old.ip_address s.sessions.next

-- The token's session was found, active and unexpired; it is revoked, and its successor is added.
pub record Rotated (c : Config) (raw : Text) (now : ℕ) (token : Text) (s t : SessionStore)
    (old : Session) : Type 0 where
  pub found : find_first (has_hash (c.sha256 token)) s.sessions.rows ≡ some old
  pub active : old.revoked_at ≡ none
  pub unexpired : now ≤ old.expires_at
  pub fresh :
      find_first (has_hash (c.sha256 raw)) (update old.id (revoked now) s.sessions.rows) ≡ none
  pub rows :
      t.sessions.rows ≡ successor c raw now old s ∷ update old.id (revoked now) s.sessions.rows

module _ (c : Config) (raw : Text) (now : ℕ) (token : Text) (s : SessionStore) where
  rotate_unknown :
      find_first (has_hash (c.sha256 token)) s.sessions.rows ≡ none
      → rotate_refresh_token c raw now token s
        ≡ (err (http ErrorCode.session_invalid unauthorized_status), s)
  unfolding rotate_refresh_token
  rotate_unknown e = ground (arith, e)

  module _ (old : Session)
      (found : find_first (has_hash (c.sha256 token)) s.sessions.rows ≡ some old) where
    rotate_revoked :
        (at : ℕ)
        → old.revoked_at ≡ some at
        → rotate_refresh_token c raw now token s ≡ (
          err (http ErrorCode.session_replay unauthorized_status),
          record s {
            audits = record { actor_user_id = old.user_id; session_id = old.id } ∷ s.audits;
          },
        )
    unfolding rotate_refresh_token
    rotate_revoked at e = ground (arith, found, e)

    rotate_expired :
        old.revoked_at ≡ none
        → old.expires_at < now
        → (e : Thrown) × (rotate_refresh_token c raw now token s ≡ (err e, s))
    unfolding rotate_refresh_token
    rotate_expired e late = elim (Option-cases (find_unique old.id s.sessions.rows)) [
      | inl gone ↦ (plain (codes "P2025"), ground (arith, found, e, gone))
      | inr (x, there) ↦
          (http ErrorCode.session_expired unauthorized_status, ground (arith, found, e, there))
    ]

    rotate_active :
        old.revoked_at ≡ none
        → now ≤ old.expires_at
        → ((e : Thrown) × (rotate_refresh_token c raw now token s ≡ (err e, s)))
          ⊎ (((rotate_refresh_token c raw now token s).0
                ≡ ok (issued c raw (successor c raw now old s)))
              × Rotated c raw now token s (rotate_refresh_token c raw now token s).1 old)
    unfolding rotate_refresh_token
    rotate_active e early = elim (Option-cases (find_unique old.id s.sessions.rows)) [
      | inl gone ↦ inl (plain (codes "P2025"), ground (arith, found, e, gone))
      | inr (x, there) ↦
          elim (Option-cases
            (find_first (has_hash (c.sha256 raw)) (update old.id (revoked now) s.sessions.rows))) [
              | inr (y, taken) ↦ inl (plain (codes "P2002"), ground (arith, found, e, there, taken))
              | inl free ↦ inr (
                ground (arith, found, e, there, free),
                record {
                  found = found;
                  active = e;
                  unexpired = early;
                  fresh = free;
                  rows = ground (arith, found, e, there, free);
                },
              )
            ]
    ]

-- A rotation that throws leaves every session as it was. One that returns has found the token's
-- session active and unexpired, revokes it, adds a session for the same user with the hash of the
-- new token, which no session had, and returns the new session's tokens.
pub rotate_outcome :
    (c : Config) (raw : Text) (now : ℕ) (token : Text) (s : SessionStore)
    → let r = rotate_refresh_token c raw now token s in
      ((e : Thrown) × (r.0 ≡ err e) × (r.1.sessions ≡ s.sessions))
      ⊎ ((old : Session) × (r.0 ≡ ok (issued c raw (successor c raw now old s)))
          × Rotated c raw now token s r.1 old)
rotate_outcome c raw now token s =
    elim (Option-cases (find_first (has_hash (c.sha256 token)) s.sessions.rows)) [
      | inl e ↦ rw (rotate_unknown c raw now token s e) (inl (_, refl, refl))
      | inr (old, found) ↦ elim (Option-cases old.revoked_at) [
        | inr (at, e) ↦ rw (rotate_revoked c raw now token s old found at e) (inl (_, refl, refl))
        | inl active ↦ elim (le_or_lt_ℕ now old.expires_at) [
          | inr late ↦
              let (e, r) = rotate_expired c raw now token s old found active late in
              rw r (inl (e, refl, refl))
          | inl early ↦ elim (rotate_active c raw now token s old found active early) [
            | inl (e, r) ↦ rw r (inl (e, refl, refl))
            | inr (returned, rotated) ↦ inr (old, returned, rotated)
          ]
        ]
      ]
    ]

-- When the session of the presented token is revoked already, the call throws SESSION_REPLAY and
-- writes an audit row, and no session is revoked: the revocation of the user's other sessions is
-- rolled back with the transaction that throws.
pub rotate_replay :
    (c : Config) (raw : Text) (now : ℕ) (token : Text) (s : SessionStore) (old : Session) (at : ℕ)
    → find_first (has_hash (c.sha256 token)) s.sessions.rows ≡ some old
    → old.revoked_at ≡ some at
    → let (r, t) = rotate_refresh_token c raw now token s in
      (r ≡ err (http ErrorCode.session_replay unauthorized_status))
      × (t.sessions ≡ s.sessions)
      × (t.audits ≡ record { actor_user_id = old.user_id; session_id = old.id } ∷ s.audits)
rotate_replay c raw now token s old at found e =
    rw (rotate_revoked c raw now token s old found at e) (refl, refl, refl)
