-- ===== src/Tests/Tokens.antt =====
-- The theorems on apps/api/src/core/sessions/sessions.service.ts at concrete inputs, with a hash that
-- changes nothing.
use saziqo_platform.Prelude.{
  ℕ, ◌≡◌, refl, true, Option, none, some, [], ◌∷◌, arith, codes, Text, ◌⊎◌, text_eq,
}
use saziqo_platform.Action.{ok, err, Thrown, http, ErrorCode, unauthorized_status}
use saziqo_platform.Table.{find_first, Descending}
use saziqo_platform.Sessions.{
  Session, SessionStore, Config, session_key, has_hash, issued, IssuedTokens, rotate_refresh_token,
}
use saziqo_platform.Sessions.Rotation.{successor, Rotated, rotate_outcome, rotate_replay}
use saziqo_platform.Sessions.Sequences.{
  issues, rotates, revokes_all, called_all, revoked_token_refused, rotated_once,
}

abbrev config : Config
config = record {
  sha256 = λ t. t;
  sign_access_token = λ u. codes "jwt";
  refresh_ttl = 1000;
  is_production = true;
}

abbrev session : ℕ → Text → Option ℕ → Session
session i hash at = record {
  id = i;
  user_id = 7;
  refresh_token_hash = hash;
  user_agent = none;
  ip_address = none;
  expires_at = 500;
  revoked_at = at;
}

abbrev store : SessionStore
store = record {
  sessions = record {
    rows = session 2 (codes "b") none ∷ session 1 (codes "a") (some 9) ∷ [];
    next = 3;
  };
  audits = [];
  notified = [];
}

rotate_outcome_example :
    let r = rotate_refresh_token config (codes "c") 100 (codes "b") store in
    ((e : Thrown) × (r.0 ≡ err e) × (r.1.sessions ≡ store.sessions))
    ⊎ ((old : Session) × (r.0
          ≡ ok (issued config (codes "c") (successor config (codes "c") 100 old store)))
        × Rotated config (codes "c") 100 (codes "b") store r.1 old)
rotate_outcome_example = rotate_outcome config (codes "c") 100 (codes "b") store

found :
    find_first (has_hash (codes "a")) store.sessions.rows ≡ some (session 1 (codes "a") (some 9))
unfolding text_eq
found = refl

rotate_replay_example :
    let (r, t) = rotate_refresh_token config (codes "c") 100 (codes "a") store in
    (r ≡ err (http ErrorCode.session_replay unauthorized_status))
    × (t.sessions ≡ store.sessions)
    × (t.audits ≡ record { actor_user_id = 7; session_id = 1 } ∷ [])
rotate_replay_example =
    rotate_replay config (codes "c") 100 (codes "a") store (session 1 (codes "a") (some 9)) 9 found
      refl

revoked_token_refused_example :
    (rotate_refresh_token config
      (codes "d")
      200
      (codes "a")
      (called_all (rotates config (codes "c") 100 (codes "b") ∷ revokes_all 150 7 ∷ []) store)).0
    ≡ err (http ErrorCode.session_replay unauthorized_status)
revoked_token_refused_example =
    revoked_token_refused (rotates config (codes "c") 100 (codes "b") ∷ revokes_all 150 7 ∷ [])
      config (codes "d") 200 (codes "a") store (session 1 (codes "a") (some 9), found, refl)

falling : Descending store.sessions.rows
falling = ground arith

abbrev tokens : IssuedTokens
tokens =
    issued config (codes "c") (successor config (codes "c") 100 (session 2 (codes "b") none) store)

returned : (rotate_refresh_token config (codes "c") 100 (codes "b") store).0 ≡ ok tokens
unfolding rotate_refresh_token text_eq
returned = refl

rotated_once_example :
    (rotate_refresh_token config (codes "d") 200 (codes "b") (
      called_all
        (issues config (codes "e") 150 7 none none ∷ [])
        (rotate_refresh_token config (codes "c") 100 (codes "b") store).1)).0
    ≡ err (http ErrorCode.session_replay unauthorized_status)
rotated_once_example =
    rotated_once (issues config (codes "e") 150 7 none none ∷ []) config (codes "c") (codes "d") 100
      200 (codes "b") store tokens falling returned
