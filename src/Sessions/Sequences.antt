-- ===== src/Sessions/Sequences.antt =====
-- Any sequence of calls of apps/api/src/core/sessions/sessions.service.ts, each run to its end before
-- the next.
use saziqo_platform.Prelude.{
  ℕ, ◌<◌, ◌≡◌, refl, sym, ap, ◌∙◌, subst, Bool, ◌&&◌, Option, none, some, List, [], ◌∷◌, arith,
  ◌==◌, Text, inl, inr, ◌⊎◌, Bool-cases, Option-cases, All,
}
use saziqo_platform.Action.{ok, err, http, ErrorCode, unauthorized_status}
use saziqo_platform.Table.{find_first, find_unique, update, Descending}
use saziqo_platform.Sessions.{
  Session, SessionStore, Config, session_key, has_hash, is_active, is_active_of, revoked,
  new_session, issue_tokens, revoke_session, revoke_one, revoke_all_for_user,
  revoke_by_refresh_token, create_session, IssuedTokens, rotate_refresh_token,
}
use saziqo_platform.Sessions.Rotation.{successor, rotate_outcome, rotate_replay}
use saziqo_platform.Sessions.Revoked.{
  IsRevoked, update_many-IsRevoked, update-IsRevoked, created-IsRevoked,
}

pub data Call : Type 0 where
  issues : Config → Text → ℕ → ℕ → Option Text → Option Text → Call
  rotates : Config → Text → ℕ → Text → Call
  revokes : ℕ → ℕ → Call
  revokes_one : ℕ → ℕ → ℕ → Bool → Call
  revokes_all : ℕ → ℕ → Call
  revokes_token : Config → ℕ → Text → Call

-- The store after a call, whether it returned or threw.
unfoldable pub called : Call → SessionStore → SessionStore
called (issues c raw now user_id agent ip) s = (issue_tokens c raw now user_id agent ip s).1
called (rotates c raw now token) s = (rotate_refresh_token c raw now token s).1
called (revokes now i) s = (revoke_session now i s).1
called (revokes_one now i user_id admin) s = (revoke_one now i user_id admin s).1
called (revokes_all now user_id) s = (revoke_all_for_user now user_id s).1
called (revokes_token c now token) s = (revoke_by_refresh_token c now token s).1

unfoldable pub called_all : List Call → SessionStore → SessionStore
called_all [] s = s
called_all (c ∷ cs) s = called_all cs (called c s)

-- What one call may do to the rows, as far as revoked sessions are concerned.
abbrev Keeps : List Session → List Session → Type 0
Keeps before afterwards = (hash : Text) → IsRevoked hash before → IsRevoked hash afterwards

revoke_session_rows :
    (now i : ℕ) (s : SessionStore)
    → ((revoke_session now i s).1.sessions.rows ≡ s.sessions.rows)
      ⊎ ((revoke_session now i s).1.sessions.rows ≡ update i (revoked now) s.sessions.rows)
unfolding revoke_session
revoke_session_rows now i s = elim (Option-cases (find_unique i s.sessions.rows)) [
  | inl e ↦ inl (ground (arith, e))
  | inr (x, e) ↦ inr (ground (arith, e))
]

revoke_one_rows :
    (now i user_id : ℕ) (admin : Bool) (s : SessionStore)
    → ((revoke_one now i user_id admin s).1.sessions.rows ≡ s.sessions.rows)
      ⊎ ((revoke_one now i user_id admin s).1.sessions.rows
          ≡ update i (revoked now) s.sessions.rows)
unfolding revoke_one revoke_session
revoke_one_rows now i user_id admin s = elim (Option-cases (find_unique i s.sessions.rows)) [
  | inl e ↦ inl (ground (arith, e))
  | inr (x, e) ↦ elim (Bool-cases (x.user_id == user_id)) [
    | inr other ↦ inl (ground (arith, e, other))
    | inl own ↦ inr (ground (arith, e, own))
  ]
]

issue_tokens_rows :
    (c : Config) (raw : Text) (now user_id : ℕ) (agent ip : Option Text) (s : SessionStore)
    → let n = new_session c raw now user_id agent ip s.sessions.next in
      let rows = (issue_tokens c raw now user_id agent ip s).1.sessions.rows in
      (rows ≡ s.sessions.rows)
      ⊎ ((find_first (has_hash n.refresh_token_hash) s.sessions.rows ≡ none)
          × (rows ≡ n ∷ s.sessions.rows))
unfolding issue_tokens create_session
issue_tokens_rows c raw now user_id agent ip s =
    elim (Option-cases (find_first (has_hash (c.sha256 raw)) s.sessions.rows)) [
      | inr (x, e) ↦ inl (ground (arith, e))
      | inl e ↦ inr (e, ground (arith, e))
    ]

same_or_update-Keeps :
    (now i : ℕ) (rows : List Session) (t : List Session)
    → (t ≡ rows) ⊎ (t ≡ update i (revoked now) rows)
    → Keeps rows t
same_or_update-Keeps now i rows t (inl e) hash h = subst (IsRevoked hash) (sym e) h
same_or_update-Keeps now i rows t (inr e) hash (s, found, gone) =
    subst (IsRevoked hash) (sym e) (update-IsRevoked hash i now rows s found gone)

called-Keeps :
    (call : Call) (s : SessionStore) → Keeps s.sessions.rows (called call s).sessions.rows
unfolding called revoke_all_for_user revoke_by_refresh_token
called-Keeps (issues c raw now user_id agent ip) s hash h =
    elim (issue_tokens_rows c raw now user_id agent ip s) [
      | inl e ↦ subst (IsRevoked hash) (sym e) h
      | inr (free, e) ↦ subst (IsRevoked hash) (sym e) (
          created-IsRevoked hash (new_session c raw now user_id agent ip s.sessions.next)
            s.sessions.rows free h)
    ]
called-Keeps (rotates c raw now token) s hash h = elim (rotate_outcome c raw now token s) [
  | inl (e, threw, same) ↦ subst (IsRevoked hash) (sym (ap (λ t. t.rows) same)) h
  | inr (old, returned, rotated) ↦
      let (x, found, gone) = h in
      subst (IsRevoked hash) (sym rotated.rows) (
        created-IsRevoked hash (successor c raw now old s)
          (update old.id (revoked now) s.sessions.rows) rotated.fresh
          (update-IsRevoked hash old.id now s.sessions.rows x found gone))
]
called-Keeps (revokes now i) s hash h =
    same_or_update-Keeps now i s.sessions.rows (revoke_session now i s).1.sessions.rows
      (revoke_session_rows now i s) hash h
called-Keeps (revokes_one now i user_id admin) s hash h =
    same_or_update-Keeps now i s.sessions.rows (revoke_one now i user_id admin s).1.sessions.rows
      (revoke_one_rows now i user_id admin s) hash h
called-Keeps (revokes_all now user_id) s hash (x, found, gone) =
    update_many-IsRevoked hash (is_active_of user_id) now s.sessions.rows x found gone
called-Keeps (revokes_token c now token) s hash (x, found, gone) =
    update_many-IsRevoked hash (λ y. has_hash (c.sha256 token) y && is_active y) now s.sessions.rows
      x found gone

called_all-Keeps :
    (calls : List Call) (s : SessionStore)
    → Keeps s.sessions.rows (called_all calls s).sessions.rows
unfolding called_all
called_all-Keeps [] s hash h = h
called_all-Keeps (c ∷ cs) s hash h = called_all-Keeps cs (called c s) hash (called-Keeps c s hash h)

-- Once the session of a refresh token is revoked, the token is never accepted again: after any
-- sequence of calls, presenting it throws SESSION_REPLAY, whatever the new random token and the
-- time.
pub revoked_token_refused :
    (calls : List Call) (c : Config) (raw : Text) (now : ℕ) (token : Text) (s : SessionStore)
    → IsRevoked (c.sha256 token) s.sessions.rows
    → (rotate_refresh_token c raw now token (called_all calls s)).0
      ≡ err (http ErrorCode.session_replay unauthorized_status)
revoked_token_refused calls c raw now token s h =
    let (x, found, gone) = called_all-Keeps calls s (c.sha256 token) h in
    elim (Option-cases x.revoked_at) [
      | inl e ↦ absurd (ground (arith, e, gone))
      | inr (at, e) ↦ (rotate_replay c raw now token (called_all calls s) x at found e).0
    ]

first_All :
    (P : Session → Type 0) (p : Session → Bool) (rows : List Session) (x : Session)
    → All P rows
    → find_first p rows ≡ some x
    → P x
first_All P p [] x a e = cc
first_All P p (r ∷ rows) x a e = elim (Bool-cases (p r)) [
  | inl hit ↦ subst P (ground (arith, hit)) a.0
  | inr missed ↦ first_All P p rows x a.1 (ground (arith, missed))
]

-- With falling ids the write by id reaches the session that the hash found.
update_found :
    (hash : Text) (now : ℕ) (rows : List Session) (old : Session)
    → Descending rows
    → find_first (has_hash hash) rows ≡ some old
    → find_first (has_hash hash) (update old.id (revoked now) rows) ≡ some (revoked now old)
update_found hash now [] old d e = cc
update_found hash now (r ∷ rows) old d e = elim (Bool-cases (has_hash hash r)) [
  | inl hit ↦
      let one : r ≡ old = ground (arith, hit) in
      subst
        (λ x.
          find_first (has_hash hash) (update x.id (revoked now) (r ∷ rows)) ≡ some (revoked now x))
        one (ground (arith, hit))
  | inr missed ↦
      let later : find_first (has_hash hash) rows ≡ some old = ground (arith, missed) in
      let below = first_All (λ x. x.id < r.id) (has_hash hash) rows old d.0 later in
      ground (arith, missed, below, update_found hash now rows old d.1 later)
]

-- A refresh token is good for one rotation: if the sessions' ids fall, then after a rotation that
-- returns and any sequence of calls behind it, presenting the same token again throws
-- SESSION_REPLAY.
pub rotated_once :
    (calls : List Call) (c : Config) (raw again : Text) (now later : ℕ) (token : Text)
    (s : SessionStore) (tokens : IssuedTokens)
    → Descending s.sessions.rows
    → (rotate_refresh_token c raw now token s).0 ≡ ok tokens
    → (rotate_refresh_token c again later token
        (called_all calls (rotate_refresh_token c raw now token s).1)).0
      ≡ err (http ErrorCode.session_replay unauthorized_status)
rotated_once calls c raw again now later token s tokens d returned =
    elim (rotate_outcome c raw now token s) [
      | inl (e, threw, same) ↦ absurd (ground (arith, sym threw ∙ returned))
      | inr (old, done, rotated) ↦
          revoked_token_refused calls c again later token (rotate_refresh_token c raw now token s).1
            (subst (IsRevoked (c.sha256 token)) (sym rotated.rows) (
              created-IsRevoked (c.sha256 token) (successor c raw now old s)
                (update old.id (revoked now) s.sessions.rows) rotated.fresh
                (
                  revoked now old,
                  update_found (c.sha256 token) now s.sessions.rows old d rotated.found,
                  refl,
                )))
    ]
