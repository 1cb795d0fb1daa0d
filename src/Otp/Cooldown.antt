-- ===== src/Otp/Cooldown.antt =====
-- How often `generateAndStore` of apps/api/src/core/otp/otp.service.ts gives a phone a code.
use saziqo_platform.Prelude.{
  le_or_lt_ℕ, ℕ, ◌+◌, ◌≤◌, ◌<◌, ◌≡◌, refl, sym, ap, ◌∙◌, subst, false, some, List, [], ◌∷◌, arith,
  Text, codes, text_eq, text_eq_iff, inl, inr, ◌⊎◌, Bool-cases, Option-cases,
}
use saziqo_platform.Action.{ok, err, http, ErrorCode, too_many_requests}
use saziqo_platform.Table.{find_first, find_unique}
use saziqo_platform.Otp.{
  OtpStore, Key, Config, attempt_key, redis_get, stored, generate_and_store, verify, verify_attempt,
  increment, consume,
}
use saziqo_platform.Otp.Verified.{checked_row}

pub data Call : Type 0 where
  generates : Config → Text → Text → ℕ → Call
  verifies : Config → Text → Text → ℕ → Call
  consumes : Config → Text → Text → ℕ → Call

-- The store after a call, whether it returned or threw.
unfoldable pub called : Call → OtpStore → OtpStore
called (generates c phone code now) s = (generate_and_store c phone code now s).1
called (verifies c phone submitted now) s = (verify c phone submitted now s).1
called (consumes c phone code now) s = (consume c phone code now s).1

unfoldable pub called_all : List Call → OtpStore → OtpStore
called_all [] s = s
called_all (c ∷ cs) s = called_all cs (called c s)

-- The phone's lock stands at least until then.
abbrev LockedUntil : Text → ℕ → OtpStore → Type 0
LockedUntil phone until s =
    (k : Key) × (find_first (λ x. text_eq phone x.phone) s.locks ≡ some k) × (until ≤ k.expires_at)

-- The lock that a call sets.
abbrev lock_of : Text → ℕ → Key
lock_of phone now = record { phone = phone; value = codes "1"; expires_at = now + 60000 }

generate_locked :
    (c : Config) (phone code : Text) (now until : ℕ) (s : OtpStore)
    → LockedUntil phone until s
    → now < until
    → generate_and_store c phone code now s
      ≡ (err (http ErrorCode.otp_rate_limited too_many_requests), s)
unfolding generate_and_store
generate_locked c phone code now until s (k, found, long) early = ground (arith, found, long)

generate_locks :
    (c : Config) (phone code : Text) (now : ℕ) (s : OtpStore)
    → (generate_and_store c phone code now s
        ≡ (err (http ErrorCode.otp_rate_limited too_many_requests), s))
      ⊎ ((generate_and_store c phone code now s ≡ (ok code, stored c phone code now s))
          × LockedUntil phone (now + 60000) (stored c phone code now s))
unfolding generate_and_store
generate_locks c phone code now s = elim (Option-cases (redis_get now phone s.locks)) [
  | inr (x, e) ↦ inl (ground (arith, e))
  | inl e ↦ inr (
    ground (arith, e),
    (lock_of phone now, rw ((text_eq_iff phone phone).1 refl) refl, omega arith),
  )
]

-- A later lock of the phone lasts longer; another phone's lock is another key.
stored-LockedUntil :
    (c : Config) (owner code : Text) (now : ℕ) (s : OtpStore) (phone : Text) (until : ℕ)
    → until ≤ now
    → LockedUntil phone until s
    → LockedUntil phone until (stored c owner code now s)
stored-LockedUntil c owner code now s phone until late (k, found, long) =
    elim (Bool-cases (text_eq phone owner)) [
      | inl same ↦ (lock_of owner now, rw same refl, omega arith)
      | inr other ↦ (k, rw other found, long)
    ]

other_phone :
    (c : Config) (owner code : Text) (now : ℕ) (s : OtpStore) (phone : Text) (until : ℕ)
    → text_eq phone owner ≡ false
    → LockedUntil phone until s
    → LockedUntil phone until (stored c owner code now s)
other_phone c owner code now s phone until other (k, found, long) = (k, rw other found, long)

generates-LockedUntil :
    (c : Config) (owner code : Text) (now : ℕ) (s : OtpStore) (phone : Text) (until : ℕ)
    → LockedUntil phone until s
    → LockedUntil phone until (generate_and_store c owner code now s).1
generates-LockedUntil c owner code now s phone until h = elim (generate_locks c owner code now s) [
  | inl refused ↦ rw refused h
  | inr (made, locked) ↦ rw made (elim (Bool-cases (text_eq phone owner)) [
    | inr other ↦ other_phone c owner code now s phone until other h
    | inl same ↦ elim (le_or_lt_ℕ until now) [
      | inl late ↦ stored-LockedUntil c owner code now s phone until late h
      | inr early ↦
          let one = (text_eq_iff phone owner).0 same in
          let refused =
            generate_locked c owner code now until s (subst (λ p. LockedUntil p until s) one h)
              early in
          absurd (ground (arith, ap (λ r. r.0) (sym refused ∙ made)))
    ]
  ])
]

verify_locks :
    (c : Config) (phone submitted : Text) (now : ℕ) (s : OtpStore)
    → (verify c phone submitted now s).1.locks ≡ s.locks
unfolding verify verify_attempt increment
verify_locks c phone submitted now s = elim (Option-cases (checked_row c phone now s)) [
  | inl e ↦ ground (arith, e)
  | inr ((a, hash), e) ↦ elim (Option-cases (find_unique a.id s.attempts.rows)) [
    | inl gone ↦ ground (arith, e, gone)
    | inr (b, there) ↦ ground (arith, e, there)
  ]
]

consume_locks :
    (c : Config) (phone code : Text) (now : ℕ) (s : OtpStore)
    → (consume c phone code now s).1.locks ≡ s.locks
unfolding consume
consume_locks c phone code now s = refl

called-LockedUntil :
    (call : Call) (s : OtpStore) (phone : Text) (until : ℕ)
    → LockedUntil phone until s
    → LockedUntil phone until (called call s)
unfolding called
called-LockedUntil (generates c owner code now) s phone until h =
    generates-LockedUntil c owner code now s phone until h
called-LockedUntil (verifies c owner submitted now) s phone until (k, found, long) = (
  k,
  ap (find_first (λ (x : Key). text_eq phone x.phone)) (verify_locks c owner submitted now s)
      ∙ found,
  long,
)
called-LockedUntil (consumes c owner code now) s phone until (k, found, long) = (
  k,
  ap (find_first (λ (x : Key). text_eq phone x.phone)) (consume_locks c owner code now s) ∙ found,
  long,
)

called_all-LockedUntil :
    (calls : List Call) (s : OtpStore) (phone : Text) (until : ℕ)
    → LockedUntil phone until s
    → LockedUntil phone until (called_all calls s)
unfolding called_all
called_all-LockedUntil [] s phone until h = h
called_all-LockedUntil (c ∷ cs) s phone until h =
    called_all-LockedUntil cs (called c s) phone until (called-LockedUntil c s phone until h)

-- After a phone has been given a code, no second code is generated for it within sixty seconds,
-- whatever calls come between: the call throws OTP_RATE_LIMITED and writes nothing.
pub generate_once :
    (calls : List Call) (c : Config) (phone code again : Text) (now later : ℕ) (s : OtpStore)
    → (generate_and_store c phone code now s).0 ≡ ok code
    → later < now + 60000
    → let t = called_all calls (generate_and_store c phone code now s).1 in
      generate_and_store c phone again later t
      ≡ (err (http ErrorCode.otp_rate_limited too_many_requests), t)
generate_once calls c phone code again now later s returned early =
    elim (generate_locks c phone code now s) [
      | inl refused ↦ absurd (ground (arith, ap (λ r. r.0) refused, returned))
      | inr (made, locked) ↦
          generate_locked c phone again later (now + 60000)
            (called_all calls (generate_and_store c phone code now s).1)
            (called_all-LockedUntil calls (generate_and_store c phone code now s).1 phone
              (now + 60000) (rw made locked))
            early
    ]
