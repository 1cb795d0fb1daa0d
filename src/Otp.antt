-- ===== src/Otp.antt =====
-- apps/api/src/core/otp/otp.service.ts: one-time codes, their rows and their keys in Redis. Hashing, the
-- salt and the look-up of users are parameters (`Config`); the generated code and `Date.now()`, in
-- milliseconds, are arguments. A digest is compared as its hex text.
pub mod Verified
pub mod Cooldown
use saziqo_platform.Prelude.{
  ℕ, suc, ◌+◌, ◌*◌, Bool, true, false, not, ◌&&◌, Option, none, some, List, [], ◌∷◌, ◌++◌, ltb,
  ◌==◌, if◌then◌else◌, Text, codes, text_eq, is_some, filter,
}
use saziqo_platform.Action.{
  Action, Result, ok, err, Thrown, http, plain, ErrorCode, too_many_requests, pure, throw, throw_if,
  gets, modify, ◌>>=◌, ◌>>◌,
}
use saziqo_platform.Table.{Table, HasId, find_unique, find_first, update, update_many, insert}

-- `model OtpAttempt`
pub record OtpAttempt : Type 0 where
  pub id : ℕ
  pub phone : Text
  pub code_hash : Text
  pub expires_at : ℕ
  pub attempts : ℕ
  pub consumed_at : Option ℕ

instance abbrev pub attempt_key : HasId OtpAttempt
attempt_key = record { id_of = λ a. a.id }

-- A key of Redis under a phone, with its value and the time at which it expires.
pub record Key : Type 0 where
  pub phone : Text
  pub value : Text
  pub expires_at : ℕ

pub record OtpStore : Type 0 where
  pub attempts : Table OtpAttempt
  pub locks : List Key
  pub hashes : List Key
  pub test_codes : List Key

pub record Config : Type 0 where
  pub sha256 : Text → Text
  pub salt : Text
  pub is_test : Bool
  pub user_exists : Text → Bool

-- `VerifyResult`
pub data VerifyResult : Type 0 where
  valid : Bool → VerifyResult
  otp_not_found otp_expired otp_invalid : VerifyResult

abbrev pub otp_ttl_seconds : ℕ
otp_ttl_seconds = 120

abbrev pub otp_lock_seconds : ℕ
otp_lock_seconds = 60

abbrev pub max_attempts : ℕ
max_attempts = 5

-- `hashCode`
abbrev pub hash_code : Config → Text → Text → Text
hash_code c code phone = c.sha256 (code ++ phone ++ c.salt)

abbrev pub live : ℕ → Option Key → Option Text
live now none = none
live now (some k) = if ltb now k.expires_at then some k.value else none

-- `client.get(key)`
abbrev pub redis_get : ℕ → Text → List Key → Option Text
redis_get now phone keys = live now (find_first (λ k. text_eq phone k.phone) keys)

-- `client.set(key, value, 'EX', seconds)`
abbrev pub redis_set : ℕ → Text → Text → ℕ → List Key → List Key
redis_set now phone value seconds keys =
    record { phone = phone; value = value; expires_at = now + seconds * 1000 } ∷ keys

-- `client.del(key)`
abbrev pub redis_del : Text → List Key → List Key
redis_del phone keys = filter (λ k. not (text_eq phone k.phone)) keys

abbrev pub new_attempt : Config → Text → Text → ℕ → ℕ → OtpAttempt
new_attempt c phone code now i = record {
  id = i;
  phone = phone;
  code_hash = hash_code c code phone;
  expires_at = now + otp_ttl_seconds * 1000;
  attempts = 0;
  consumed_at = none;
}

abbrev pub stored : Config → Text → Text → ℕ → OtpStore → OtpStore
stored c phone code now s = record {
  attempts = insert (new_attempt c phone code now) s.attempts;
  locks = redis_set now phone (codes "1") otp_lock_seconds s.locks;
  hashes = redis_set now phone (hash_code c code phone) otp_ttl_seconds s.hashes;
  test_codes =
      if c.is_test then redis_set now phone code otp_ttl_seconds s.test_codes else s.test_codes;
}

-- `generateAndStore`, which returns the code.
unfoldable pub generate_and_store : Config → Text → Text → ℕ → Action OtpStore Text
generate_and_store c phone code now = do
  lock ← gets (λ s. redis_get now phone s.locks)
  throw_if (is_some lock) (http ErrorCode.otp_rate_limited too_many_requests)
  modify (stored c phone code now)
  pure code

abbrev pub is_unconsumed_of : Text → OtpAttempt → Bool
is_unconsumed_of phone a = text_eq phone a.phone && not (is_some a.consumed_at)

-- The row to check, and the hash to compare with, from what Redis has. An empty text is falsy.
abbrev pub attempt_of : Text → Option Text → List OtpAttempt → Option (OtpAttempt × Text)
attempt_of phone (some (x ∷ hash)) rows =
    elim (find_first (λ a. text_eq (x ∷ hash) a.code_hash && is_unconsumed_of phone a) rows) [
      | none ↦ none
      | some a ↦ some (a, x ∷ hash)
    ]
attempt_of phone _ rows = elim (find_first (is_unconsumed_of phone) rows) [
  | none ↦ none
  | some a ↦ if text_eq [] a.code_hash then none else some (a, a.code_hash)
]

abbrev pub del_hash : Text → Action OtpStore (Unit {0})
del_hash phone = modify (λ s. record s { hashes = redis_del phone s.hashes })

abbrev pub tried : OtpAttempt → OtpAttempt
tried a = record a { attempts = suc a.attempts }

abbrev pub not_there : Thrown
not_there = plain (codes "P2025")

abbrev pub incremented : ℕ → Option OtpAttempt → Action OtpStore OtpAttempt
incremented i none s = (err (not_there), s)
incremented i (some a) s = (
  ok (tried a),
  record s { attempts = record { rows = update i tried s.attempts.rows; next = s.attempts.next } },
)

-- `otpAttempt.update({ where: { id }, data: { attempts: { increment: 1 } } })`
unfoldable pub increment : ℕ → Action OtpStore OtpAttempt
increment i s = incremented i (find_unique i s.attempts.rows) s

abbrev pub expired : Text → Action OtpStore VerifyResult
expired phone = do del_hash phone; pure otp_expired

-- The count is looked at before the comparison.
abbrev pub counted : Config → Text → Text → Text → OtpAttempt → Action OtpStore VerifyResult
counted c phone submitted code_hash a =
    if ltb max_attempts a.attempts
    then (do del_hash phone; throw (http ErrorCode.otp_too_many_attempts too_many_requests))
    else pure (
        if text_eq (hash_code c submitted phone) code_hash
        then valid (c.user_exists phone)
        else otp_invalid)

-- Behind the look-up of the row.
unfoldable pub verify_attempt :
    Config → Text → Text → ℕ → OtpAttempt → Text → Action OtpStore VerifyResult
unfolding increment
verify_attempt c phone submitted now attempt code_hash =
    if ltb attempt.expires_at now
    then expired phone
    else increment attempt.id >>= counted c phone submitted code_hash

abbrev pub verify_found :
    Config → Text → Text → ℕ → Option (OtpAttempt × Text) → Action OtpStore VerifyResult
verify_found c phone submitted now none = pure otp_not_found
verify_found c phone submitted now (some found) =
    verify_attempt c phone submitted now found.0 found.1

-- `verify`
unfoldable pub verify : Config → Text → Text → ℕ → Action OtpStore VerifyResult
verify c phone submitted now s =
    verify_found c phone submitted now
      (attempt_of phone (redis_get now phone s.hashes) s.attempts.rows) s

abbrev pub is_matching : Config → Text → Text → OtpAttempt → Bool
is_matching c phone code a =
    text_eq (hash_code c code phone) a.code_hash && is_unconsumed_of phone a

abbrev pub consumed : ℕ → OtpAttempt → OtpAttempt
consumed now a = record a { consumed_at = some now }

-- `consume`
unfoldable pub consume : Config → Text → Text → ℕ → Action OtpStore (Unit {0})
consume c phone code now = do
  del_hash phone
  modify (λ s. record s {
    attempts = record {
      rows = update_many (is_matching c phone code) (consumed now) s.attempts.rows;
      next = s.attempts.next;
    };
  })
