-- ===== src/Action.antt =====
-- What an asynchronous service method is: it reads and writes the stored state and returns or
-- throws. What was written before a throw stays written, except inside `$transaction`.
-- Error codes: apps/api/src/common/types/response.types.ts; the status numbers are those of
-- the `HttpStatus` enumeration.
use saziqo_platform.Prelude.{Text, Bool, Option, none, some, ℕ, if◌then◌else◌}

-- `enum ErrorCode`
pub data ErrorCode : Type 0 where
  validation_error unauthorized forbidden not_found conflict rate_limited : ErrorCode
  idempotency_key_required idempotency_key_reused session_invalid session_expired : ErrorCode
  session_replay otp_rate_limited otp_too_many_attempts otp_not_found otp_expired : ErrorCode
  otp_invalid internal_error cannot_remove_bootstrap_admin invalid_status_transition : ErrorCode
  listing_not_found admin_confirm_required cannot_impersonate_super_admin : ErrorCode
  cannot_nest_impersonation impersonation_ended file_too_large mime_not_allowed : ErrorCode
  mime_mismatch svg_unsafe_content gone email_provider_not_configured : ErrorCode
  insufficient_funds balance_mismatch invalid_iban payout_not_pending : ErrorCode
  payout_not_approved payment_initiation_failed payment_verification_failed : ErrorCode
  refund_not_supported_by_provider invalid_callback refund_amount_exceeds_available : ErrorCode
  cannot_refund_insufficient_balance refund_not_pending payment_not_refundable : ErrorCode
  module_boot_failed cannot_buy_own_listing already_owned listing_not_purchasable : ErrorCode
  invalid_run_pack empty_cart checkout_validation_failed access_denied_not_owner : ErrorCode
  bundle_not_available invalid_api_key insufficient_runs slug_taken invalid_packs : ErrorCode
  maker_quota_exceeded : ErrorCode

-- What is thrown: an `HttpException` with its code and status, or a plain `Error` with its message.
pub data Thrown : Type 0 where
  http : ErrorCode → ℕ → Thrown
  plain : Text → Thrown

pub data Result {ℓ} (A : Type ℓ) : Type ℓ where
  ok : A → Result A
  err : Thrown → Result A

-- `HttpStatus`.
abbrev pub bad_request : ℕ
bad_request = 400

abbrev pub unauthorized_status : ℕ
unauthorized_status = 401

abbrev pub forbidden_status : ℕ
forbidden_status = 403

abbrev pub not_found_status : ℕ
not_found_status = 404

abbrev pub conflict_status : ℕ
conflict_status = 409

abbrev pub unprocessable_entity : ℕ
unprocessable_entity = 422

abbrev pub too_many_requests : ℕ
too_many_requests = 429

abbrev pub internal_server_error : ℕ
internal_server_error = 500

abbrev pub bad_gateway : ℕ
bad_gateway = 502

abbrev pub Action : Type 0 → Type 0 → Type 0
Action S A = S → Result A × S

module _ {S A : Type 0} where
  abbrev pub pure : A → Action S A
  pure a s = (ok a, s)

  abbrev pub throw : Thrown → Action S A
  throw e s = (err e, s)

  -- `if (!row) throw …`
  abbrev pub or_throw : Option A → Thrown → Action S A
  or_throw none e s = (err e, s)
  or_throw (some a) e s = (ok a, s)

  -- `prisma.$transaction(async (tx) => …)`: a throw rolls the state back.
  abbrev pub transaction : Action S A → Action S A
  transaction m s = let (r, s') = m s in elim r [ ok a ↦ (ok a, s') | err e ↦ (err e, s) ]

abbrev pub gets : {S A : Type 0} → (S → A) → Action S A
gets f s = (ok (f s), s)

abbrev pub modify : {S : Type 0} → (S → S) → Action S (Unit {0})
modify f s = (ok tt, f s)

-- `if (c) throw e`
abbrev pub throw_if : {S : Type 0} → Bool → Thrown → Action S (Unit {0})
throw_if c e s = (if c then err e else ok tt, s)

infixl 5 ◌>>=◌ ◌>>◌
abbrev pub ◌>>=◌ : {S A B : Type 0} → Action S A → (A → Action S B) → Action S B
◌>>=◌ m f s = let (r, s') = m s in elim r [ ok a ↦ f a s' | err e ↦ (err e, s') ]

abbrev pub ◌>>◌ : {S B : Type 0} → Action S (Unit {0}) → Action S B → Action S B
m >> k = m >>= λ _. k
