-- ===== src/Otp/Verified.antt =====
-- What `verify` of apps/api/src/core/otp/otp.service.ts asks for before it accepts a code.
use saziqo_platform.Prelude.{
  le_or_lt_ℕ, ℕ, ◌≤◌, ◌<◌, ◌≡◌, sym, ap, ◌∙◌, subst, Bool, true, false, ◌&&◌, Option, none, some,
  List, [], ◌∷◌, arith, if◌then◌else◌, Text, text_eq, text_eq_iff, inl, inr, Bool-cases,
  Option-cases,
}
use saziqo_platform.Action.{ok, err, Thrown, http, ErrorCode, too_many_requests}
use saziqo_platform.Table.{find_first, find_unique, update}
use saziqo_platform.Otp.{
  OtpAttempt, OtpStore, Config, VerifyResult, valid, otp_not_found, otp_expired, otp_invalid,
  attempt_key, hash_code, redis_get, attempt_of, is_unconsumed_of, tried, increment, verify_attempt,
  verify, not_there,
}

-- The row that a call checks.
abbrev pub checked_row : Config → Text → ℕ → OtpStore → Option (OtpAttempt × Text)
checked_row c phone now s = attempt_of phone (redis_get now phone s.hashes) s.attempts.rows

-- A comparison was made: the row is the phone's, unconsumed and unexpired, has the hash that is
-- compared, had been tried fewer than five times, and is counted once more.
pub record Compared (c : Config) (phone : Text) (now : ℕ) (s t : OtpStore) (a : OtpAttempt)
    : Type 0 where
  pub unconsumed : is_unconsumed_of phone a ≡ true
  pub unexpired : now ≤ a.expires_at
  pub below : (b : OtpAttempt) × (find_unique a.id s.attempts.rows ≡ some b) × (b.attempts < 5)
  pub rows : t.attempts.rows ≡ update a.id tried s.attempts.rows

found_holds :
    (p : OtpAttempt → Bool) (rows : List OtpAttempt) (a : OtpAttempt)
    → find_first p rows ≡ some a
    → p a ≡ true
found_holds p [] a e = cc
found_holds p (r ∷ rows) a e = elim (Bool-cases (p r)) [
  | inl hit ↦ ground (arith, hit)
  | inr missed ↦ found_holds p rows a (ground (arith, missed))
]

second : (a b : Bool) → (a && b) ≡ true → b ≡ true
second a b h = ground arith

first : (a b : Bool) → (a && b) ≡ true → a ≡ true
first a b h = ground arith

-- The row is the phone's and unconsumed, and the hash is the row's.
latest_lem :
    (phone : Text) (rows : List OtpAttempt) (a : OtpAttempt) (hash : Text)
    → attempt_of phone none rows ≡ some (a, hash)
    → (is_unconsumed_of phone a ≡ true) × (hash ≡ a.code_hash)
latest_lem phone rows a hash e = elim (Option-cases (find_first (is_unconsumed_of phone) rows)) [
  | inl f ↦ absurd (ground (arith, f, e))
  | inr (b, f) ↦
      let holds = found_holds (is_unconsumed_of phone) rows b f in
      (ground (arith, f, e, holds), ground (arith, f, e))
]

attempt_of_lem :
    (phone : Text) (o : Option Text) (rows : List OtpAttempt) (a : OtpAttempt) (hash : Text)
    → attempt_of phone o rows ≡ some (a, hash)
    → (is_unconsumed_of phone a ≡ true) × (hash ≡ a.code_hash)
attempt_of_lem phone none rows a hash e = latest_lem phone rows a hash e
attempt_of_lem phone (some []) rows a hash e = latest_lem phone rows a hash e
attempt_of_lem phone (some (x ∷ h)) rows a hash e =
    elim (Option-cases
      (find_first (λ y. text_eq (x ∷ h) y.code_hash && is_unconsumed_of phone y) rows)) [
        | inl f ↦ absurd (ground (arith, f, e))
        | inr (b, f) ↦
            let holds =
              found_holds (λ y. text_eq (x ∷ h) y.code_hash && is_unconsumed_of phone y) rows b f in
            let same : b ≡ a = ground (arith, f, e) in
            let text : (x ∷ h) ≡ hash = ground (arith, f, e) in
            let equal =
              (text_eq_iff (x ∷ h) b.code_hash).0
                (first (text_eq (x ∷ h) b.code_hash) (is_unconsumed_of phone b) holds) in
            (
              subst (λ y. is_unconsumed_of phone y ≡ true) same
                  (second (text_eq (x ∷ h) b.code_hash) (is_unconsumed_of phone b) holds),
              sym text ∙ equal ∙ ap (λ y. y.code_hash) same,
            )
      ]

-- The code was compared with the row's.
abbrev pub is_comparison : VerifyResult → Bool
is_comparison (valid _) = true
is_comparison otp_invalid = true
is_comparison _ = false

abbrev pub comparison : Config → Text → Text → OtpAttempt → VerifyResult
comparison c phone submitted a =
    if text_eq (hash_code c submitted phone) a.code_hash
    then valid (c.user_exists phone)
    else otp_invalid

module _ (c : Config) (phone submitted : Text) (now : ℕ) (s : OtpStore) where
  verify_nothing :
      checked_row c phone now s ≡ none → (verify c phone submitted now s).0 ≡ ok otp_not_found
  unfolding verify
  verify_nothing e = ground (arith, e)

  module _ (a : OtpAttempt) (hash : Text) (row : checked_row c phone now s ≡ some (a, hash)) where
    verify_late : a.expires_at < now → (verify c phone submitted now s).0 ≡ ok otp_expired
    unfolding verify verify_attempt
    verify_late late = ground (arith, row)

    verify_gone :
        now ≤ a.expires_at
        → find_unique a.id s.attempts.rows ≡ none
        → (e : Thrown) × ((verify c phone submitted now s).0 ≡ err e)
    unfolding verify verify_attempt increment
    verify_gone early gone = (not_there, ground (arith, row, gone))

    verify_spent :
        (b : OtpAttempt)
        → now ≤ a.expires_at
        → find_unique a.id s.attempts.rows ≡ some b
        → 5 ≤ b.attempts
        → (e : Thrown) × ((verify c phone submitted now s).0 ≡ err e)
    unfolding verify verify_attempt increment
    verify_spent b early there many =
        (http ErrorCode.otp_too_many_attempts too_many_requests, ground (arith, row, there))

    verify_compared :
        (b : OtpAttempt)
        → now ≤ a.expires_at
        → find_unique a.id s.attempts.rows ≡ some b
        → b.attempts < 5
        → ((verify c phone submitted now s).0
            ≡ ok (
                if text_eq (hash_code c submitted phone) hash
                then valid (c.user_exists phone)
                else otp_invalid))
          × ((verify c phone submitted now s).1.attempts.rows ≡ update a.id tried s.attempts.rows)
    unfolding verify verify_attempt increment
    verify_compared b early there few = (ground (arith, row, there), ground (arith, row, there))

-- A call that answers valid or invalid has compared the code with an unconsumed, unexpired row of the
-- phone that had been tried fewer than five times, has counted the try, and answers valid exactly
-- when the code has the row's hash.
pub verify_lem :
    (c : Config) (phone submitted : Text) (now : ℕ) (s : OtpStore) (r : VerifyResult)
    → is_comparison r ≡ true
    → (verify c phone submitted now s).0 ≡ ok r
    → (a : OtpAttempt) × Compared c phone now s (verify c phone submitted now s).1 a
      × (r ≡ comparison c phone submitted a)
verify_lem c phone submitted now s r is e = elim (Option-cases (checked_row c phone now s)) [
  | inl none_there ↦
      absurd (ground (arith, verify_nothing c phone submitted now s none_there, e, is))
  | inr ((a, hash), row) ↦
      let (unconsumed, own) =
        attempt_of_lem phone (redis_get now phone s.hashes) s.attempts.rows a hash row in
      elim (le_or_lt_ℕ now a.expires_at) [
        | inr late ↦
            absurd (ground (arith, verify_late c phone submitted now s a hash row late, e, is))
        | inl early ↦ elim (Option-cases (find_unique a.id s.attempts.rows)) [
          | inl gone ↦
              let (x, threw) = verify_gone c phone submitted now s a hash row early gone in
              absurd (ground (arith, sym threw ∙ e))
          | inr (b, there) ↦ elim (le_or_lt_ℕ 5 b.attempts) [
            | inl many ↦
                let (x, threw) =
                  verify_spent c phone submitted now s a hash row b early there many in
                absurd (ground (arith, sym threw ∙ e))
            | inr few ↦
                let (answer, rows) =
                  verify_compared c phone submitted now s a hash row b early there few in
                (
                  a,
                  record {
                    unconsumed = unconsumed;
                    unexpired = early;
                    below = (b, there, few);
                    rows = rows;
                  },
                  ground (arith, sym e ∙ answer, own),
                )
          ]
        ]
      ]
]
