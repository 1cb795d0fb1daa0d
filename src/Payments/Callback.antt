-- ===== src/Payments/Callback.antt =====
-- `handleCallback` of apps/api/src/core/payments/payments.service.ts. The success branch runs the
-- reconciler inside a transaction that it takes no part in: the reconciler's own writes are
-- committed by themselves, and the payment's new status only when the outer transaction commits,
-- which may fail; `commits` says whether it does.
use saziqo_platform.Prelude.{
  ℕ, Bool, true, false, not, some, [], ◌∷◌, if◌then◌else◌, Text, codes, get_or,
}
use saziqo_platform.Action.{
  Action, Thrown, http, plain, ErrorCode, bad_request, pure, throw, or_throw, throw_if, gets, ◌>>=◌,
  ◌>>◌,
}
use saziqo_platform.Table.{find_unique}
use saziqo_platform.Store.{
  Store, Payment, PaymentStatus, NotificationType, in_app, sms, number, text, payment_key,
}
use saziqo_platform.Payments.{
  Answer, answered, thrown, Verification, PaymentProvider, payment_missing, rethrown,
  update_payment, notify, clipped,
}
use saziqo_platform.Payments.Reconciler.{reconcile, has_reference}

pub data ProviderStatus : Type 0 where
  okay not_okay : ProviderStatus

-- `HandleCallbackInput`
pub record HandleCallbackInput : Type 0 where
  pub payment_id : ℕ
  pub provider_reference : Text
  pub provider_status : ProviderStatus

-- `HandleCallbackResult`
pub record HandleCallbackResult : Type 0 where
  pub payment_id : ℕ
  pub status : PaymentStatus

-- `TERMINAL_STATUSES`
abbrev pub is_terminal : PaymentStatus → Bool
is_terminal PaymentStatus.pending = false
is_terminal _ = true

abbrev pub as_cancelled : ℕ → Payment → Payment
as_cancelled now p = record p { status = PaymentStatus.cancelled; completed_at = some now }

abbrev pub as_succeeded : Verification → ℕ → Payment → Payment
as_succeeded v now p = record p {
  status = PaymentStatus.succeeded;
  completed_at = some now;
  reference_code = v.reference_code;
  card_pan_masked = v.card_pan;
}

-- `(verification.failureReason ?? 'Verification failed').slice(0, 500)`
abbrev pub as_failed : Verification → ℕ → Payment → Payment
as_failed v now p = record p {
  status = PaymentStatus.failed;
  completed_at = some now;
  failure_reason = some (clipped (get_or v.failure_reason (codes "Verification failed")));
}

abbrev pub commit_failed : Thrown
commit_failed = plain (codes "P2028")

-- `$transaction(async (tx) => { await tx.payment.update(…); await this.reconciler.reconcile(id); })`
unfoldable pub succeed : Bool → Verification → ℕ → Payment → Action Store (Unit {0})
unfolding update_payment
succeed commits v now payment = do
  row ← gets (λ s. find_unique payment.id s.payments.rows)
  there ← or_throw row (plain (codes "P2025"))
  reconcile payment.id
  throw_if (not commits) commit_failed
  updated ← update_payment payment.id (as_succeeded v now)
  pure tt

abbrev pub result : Payment → PaymentStatus → HandleCallbackResult
result payment status = record { payment_id = payment.id; status = status }

-- What follows the gateway's verification.
abbrev pub verified_or_failed :
    Bool → ℕ → Payment → Answer Verification → Action Store HandleCallbackResult
verified_or_failed commits now payment (thrown e) = throw (rethrown e)
verified_or_failed commits now payment (answered v) =
    if v.verified
    then (do
      succeed commits v now payment
      notify payment.user_id NotificationType.payment_succeeded
          (("amount", number payment.amount)
            ∷ ("reference", text (get_or v.reference_code []))
            ∷ [])
          (in_app ∷ sms ∷ [])
      pure (result payment PaymentStatus.succeeded))
    else (do
      updated ← update_payment payment.id (as_failed v now)
      notify payment.user_id NotificationType.payment_failed
          (("amount", number payment.amount) ∷ []) (in_app ∷ [])
      pure (result payment PaymentStatus.failed))

unfoldable pub answer_status :
    PaymentProvider
    → Bool
    → ℕ
    → Payment
    → HandleCallbackInput
    → ProviderStatus
    → Action Store HandleCallbackResult
unfolding update_payment
answer_status provider commits now payment input not_okay = do
  updated ← update_payment payment.id (as_cancelled now)
  notify payment.user_id NotificationType.payment_cancelled (("amount", number payment.amount) ∷ [])
      (in_app ∷ [])
  pure (result payment PaymentStatus.cancelled)
answer_status provider commits now payment input okay =
    verified_or_failed commits now payment (provider.verify input.provider_reference payment.amount)

-- Behind the look-up of the payment.
unfoldable pub handle_found :
    PaymentProvider → Bool → ℕ → Payment → HandleCallbackInput → Action Store HandleCallbackResult
handle_found provider commits now payment input =
    if is_terminal payment.status then pure (result payment payment.status) else (do
      throw_if (not (has_reference input.provider_reference payment.provider_reference))
          (http ErrorCode.invalid_callback bad_request)
      answer_status provider commits now payment input input.provider_status)

-- `handleCallback`
unfoldable pub handle_callback :
    PaymentProvider → Bool → ℕ → HandleCallbackInput → Action Store HandleCallbackResult
handle_callback provider commits now input = do
  row ← gets (λ s. find_unique input.payment_id s.payments.rows)
  payment ← or_throw row payment_missing
  handle_found provider commits now payment input
