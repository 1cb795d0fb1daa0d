-- ===== src/Payments/Refunds.antt =====
-- `refund` and `markRefundCompleted` of apps/api/src/core/payments/payments.service.ts.
use saziqo_platform.Prelude.{
  ℕ, Bool, true, false, not, ◌||◌, Option, none, some, List, [], ◌∷◌, ◌++◌, ◌==◌, if◌then◌else◌, ℤ,
  pos, ◌+ℤ◌, ◌-ℤ◌, ltb_ℤ, leb_ℤ, Text, codes, to_string, starts_with, get_or,
}
use saziqo_platform.Action.{
  Action, Result, ok, err, Thrown, http, plain, ErrorCode, bad_request, not_found_status, pure,
  throw, unprocessable_entity, or_throw, throw_if, gets, ◌>>=◌, ◌>>◌,
}
use saziqo_platform.Table.{find_unique, update, insert}
use saziqo_platform.Store.{
  Store, Payment, PaymentStatus, Refund, RefundStatus, NotificationType, in_app, sms, number, text,
  payment_key, refund_key,
}
use saziqo_platform.Ledger.{LedgerWriteInput, find_or_create_for_user, debit}
use saziqo_platform.Payments.{
  GatewayError, error, unknown, Answer, answered, thrown, PaymentProvider, payment_missing,
  rethrown, is_topup, notify,
}

-- `RefundInput` of the service
pub record RefundInput : Type 0 where
  pub payment_id : ℕ
  pub amount : Option ℤ
  pub reason : Text
  pub actor_user_id : ℕ

-- `text.includes(part)`
unfoldable pub includes : Text → Text → Bool
unfolding starts_with
includes part [] = starts_with part []
includes part (c ∷ s) = starts_with part (c ∷ s) || includes part s

-- `isRefundNotSupportedError`
unfoldable pub is_refund_not_supported : GatewayError → Bool
unfolding includes
is_refund_not_supported (error m) = includes (codes "REFUND_NOT_SUPPORTED_BY_PROVIDER") m
is_refund_not_supported unknown = false

-- `isInsufficientFundsError`
abbrev pub is_insufficient_funds : Thrown → Bool
is_insufficient_funds (http ErrorCode.insufficient_funds _) = true
is_insufficient_funds _ = false

abbrev pub is_succeeded : PaymentStatus → Bool
is_succeeded PaymentStatus.succeeded = true
is_succeeded _ = false

-- `_sum: { amount }` over the refunds of a payment, or 0.
unfoldable pub refunded_of : ℕ → List Refund → ℤ
refunded_of i [] = pos 0
refunded_of i (r ∷ rs) =
    let rest = refunded_of i rs in if i == r.payment_id then r.amount +ℤ rest else rest

-- What the gateway's answer says of an automated refund.
abbrev pub probed : Answer Bool → Action Store Bool
probed (answered refunded) = pure refunded
probed (thrown e) = if is_refund_not_supported e then pure false else throw (rethrown e)

abbrev pub new_refund : RefundInput → ℤ → Bool → ℕ → ℕ → Refund
new_refund input amount automated now i = record {
  id = i;
  payment_id = input.payment_id;
  amount = amount;
  reason = input.reason;
  status = if automated then RefundStatus.completed else RefundStatus.pending_manual;
  requested_by_user_id = input.actor_user_id;
  completed_at = if automated then some now else none;
  bank_reference = none;
}

abbrev pub create_refund : (ℕ → Refund) → Action Store Refund
create_refund mk s = (ok (mk s.refunds.next), record s { refunds = insert mk s.refunds })

-- `refund:<id>`
unfoldable pub refund_reference : ℕ → Text
refund_reference i = codes "refund:" ++ to_string i

abbrev pub refund_debit : Refund → Payment → ℕ → LedgerWriteInput
refund_debit refund payment wallet_id = record {
  wallet_id = wallet_id;
  amount = refund.amount;
  reference = some (refund_reference refund.id);
  description = some (codes "Refund — payment #" ++ to_string payment.id);
  metadata =
      some
        ((codes "refundId", to_string refund.id) ∷ (codes "paymentId", to_string payment.id) ∷ []);
}

abbrev pub cannot_absorb : Thrown
cannot_absorb = http ErrorCode.cannot_refund_insufficient_balance unprocessable_entity

-- The `try` around the debit, and its `catch`.
abbrev pub debit_caught : {A : Type 0} → Result A × Store → Result (Unit {0}) × Store
debit_caught (ok _, s) = (ok tt, s)
debit_caught (err e, s) = (err (if is_insufficient_funds e then cannot_absorb else e), s)

unfoldable pub take_back : Refund → Payment → Action Store (Unit {0})
take_back refund payment s =
    if is_topup payment.purpose
    then debit_caught (
        (do
          wallet ← find_or_create_for_user payment.user_id
          debit (refund_debit refund payment wallet.id))
          s)
    else (ok tt, s)

-- The checks of `refund`: the payment and the amount to give back.
unfoldable pub refund_check : RefundInput → Action Store (Payment × ℤ)
unfolding refunded_of
refund_check input = do
  row ← gets (λ s. find_unique input.payment_id s.payments.rows)
  payment ← or_throw row payment_missing
  throw_if (not (is_succeeded payment.status))
      (http ErrorCode.payment_not_refundable unprocessable_entity)
  let amount = get_or input.amount payment.amount
  throw_if (leb_ℤ amount (pos 0)) (http ErrorCode.validation_error bad_request)
  already ← gets (λ s. refunded_of input.payment_id s.refunds.rows)
  throw_if (ltb_ℤ (payment.amount -ℤ already) amount)
      (http ErrorCode.refund_amount_exceeds_available unprocessable_entity)
  pure (payment, amount)

-- `refund`
unfoldable pub refund : PaymentProvider → ℕ → RefundInput → Action Store Refund
refund provider now input = do
  checked ← refund_check input
  let payment = checked.0
  let amount = checked.1
  automated ← probed (
      provider.refund (record {
        provider_reference = get_or payment.provider_reference [];
        amount = amount;
        reason = input.reason;
      }))
  row ← create_refund (new_refund input amount automated now)
  take_back row payment
  notify payment.user_id NotificationType.payment_refunded
      (("amount", number amount) ∷ ("paymentId", text (to_string payment.id)) ∷ [])
      (in_app ∷ sms ∷ [])
  pure row

abbrev pub is_manual : RefundStatus → Bool
is_manual RefundStatus.pending_manual = true
is_manual RefundStatus.completed = false

abbrev pub as_completed : ℕ → Text → Refund → Refund
as_completed now bank_reference r = record r {
  status = RefundStatus.completed;
  completed_at = some now;
  bank_reference = some bank_reference;
}

-- `MarkRefundCompletedInput`
pub record MarkRefundCompletedInput : Type 0 where
  pub refund_id : ℕ
  pub bank_reference : Text
  pub actor_user_id : ℕ

abbrev pub updated_refund : ℕ → (Refund → Refund) → Option Refund → Action Store Refund
updated_refund i f none s = (err (plain (codes "P2025")), s)
updated_refund i f (some r) s = (
  ok (f r),
  record s { refunds = record { rows = update i f s.refunds.rows; next = s.refunds.next } },
)

-- `markRefundCompleted`
unfoldable pub mark_refund_completed : ℕ → MarkRefundCompletedInput → Action Store Refund
mark_refund_completed now input = do
  row ← gets (λ s. find_unique input.refund_id s.refunds.rows)
  refund ← or_throw row (http ErrorCode.not_found not_found_status)
  throw_if (not (is_manual refund.status)) (http ErrorCode.refund_not_pending unprocessable_entity)
  there ← gets (λ s. find_unique refund.id s.refunds.rows)
  updated_refund refund.id (as_completed now input.bank_reference) there
