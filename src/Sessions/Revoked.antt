-- ===== src/Sessions/Revoked.antt =====
-- Any sequence of calls of apps/api/src/core/sessions/sessions.service.ts, and what it does to a
-- session that is revoked.
use saziqo_platform.Prelude.{
  ℕ, ◌≡◌, refl, sym, ap, ◌∙◌, Bool, true, none, some, List, [], ◌∷◌, arith, ◌==◌, Text, is_some,
  text_eq, text_eq_iff, inl, inr, Bool-cases,
}
use saziqo_platform.Table.{find_first, update, update_many}
use saziqo_platform.Sessions.{Session, session_key, has_hash, revoked}

-- The hash is that of a session, and the session is revoked.
abbrev pub IsRevoked : Text → List Session → Type 0
IsRevoked hash rows =
    (s : Session) × (find_first (has_hash hash) rows ≡ some s) × (is_some s.revoked_at ≡ true)

pub update_many-IsRevoked :
    (hash : Text) (p : Session → Bool) (now : ℕ) (rows : List Session) (s : Session)
    → find_first (has_hash hash) rows ≡ some s
    → is_some s.revoked_at ≡ true
    → IsRevoked hash (update_many p (revoked now) rows)
update_many-IsRevoked hash p now [] s e d = cc
update_many-IsRevoked hash p now (r ∷ rows) s e d = elim (Bool-cases (has_hash hash r)) [
  | inr other ↦
      let (x, found, gone) = update_many-IsRevoked hash p now rows s (ground (arith, other)) d in
      (x, ground (arith, other, found), gone)
  | inl here ↦ elim (Bool-cases (p r)) [
    | inl hit ↦ (revoked now r, ground (arith, here, hit), refl)
    | inr missed ↦ (r, ground (arith, here, missed), ground (arith, here))
  ]
]

pub update-IsRevoked :
    (hash : Text) (i now : ℕ) (rows : List Session) (s : Session)
    → find_first (has_hash hash) rows ≡ some s
    → is_some s.revoked_at ≡ true
    → IsRevoked hash (update i (revoked now) rows)
update-IsRevoked hash i now [] s e d = cc
update-IsRevoked hash i now (r ∷ rows) s e d = elim (Bool-cases (has_hash hash r)) [
  | inr other ↦
      let (x, found, gone) = update-IsRevoked hash i now rows s (ground (arith, other)) d in
      elim (Bool-cases (i == r.id)) [
        | inl hit ↦ (s, ground (arith, other, hit), d)
        | inr missed ↦ (x, ground (arith, other, missed, found), gone)
      ]
  | inl here ↦ elim (Bool-cases (i == r.id)) [
    | inl hit ↦ (revoked now r, ground (arith, here, hit), refl)
    | inr missed ↦ (r, ground (arith, here, missed), ground (arith, here))
  ]
]

-- A new session with a hash that no session has is not found under another's hash.
pub created-IsRevoked :
    (hash : Text) (n : Session) (rows : List Session)
    → find_first (has_hash n.refresh_token_hash) rows ≡ none
    → IsRevoked hash rows
    → IsRevoked hash (n ∷ rows)
created-IsRevoked hash n rows free (s, found, gone) =
    elim (Bool-cases (text_eq hash n.refresh_token_hash)) [
      | inr other ↦ (s, ground (arith, other, found), gone)
      | inl same ↦
          let equal = (text_eq_iff hash n.refresh_token_hash).0 same in
          absurd (ground (arith, sym found ∙ ap (λ h. find_first (has_hash h) rows) equal ∙ free))
    ]
