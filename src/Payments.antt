-- ===== src/Payments.antt =====
-- apps/api/src/core/payments: payments through a gateway, their credit to the ledger, and refunds.
-- This file has what the parts share: the gateway (payment-provider.interface.ts), the rows and the
-- purposes (payments.service.ts). `now` is what `new Date()` gives.
pub mod Initiate
pub mod Reconciler
pub mod Callback
pub mod Refunds
pub mod Queries
pub mod Exact
pub mod Settled
pub mod Once
pub mod RefundSteps
pub mod TakenBack
pub mod Opened
pub mod RefundCap
pub mod Genuine
pub mod Books
pub mod Consistent
pub mod Race
pub mod Sequences
use saziqo_platform.Prelude.{
  ℕ, Bool, true, false, ◌&&◌, ◌||◌, Option, none, some, List, [], ◌∷◌, ◌++◌, leb, ◌==◌,
  if◌then◌else◌, ℤ, Text, codes, to_string, text_eq, any, take, String,
}
use saziqo_platform.Action.{
  Action, Result, ok, err, Thrown, http, plain, ErrorCode, not_found_status, modify, ◌>>=◌, ◌>>◌,
}
use saziqo_platform.Table.{Table, find_unique, update, insert}
use saziqo_platform.Store.{
  Store, Payment, PaymentStatus, Dispatch, NotificationType, Channel, PayloadValue, dispatch,
  payment_key,
}

-- What a gateway call may throw: an `Error` with its message, or something else.
pub data GatewayError : Type 0 where
  error : Text → GatewayError
  unknown : GatewayError

pub data Answer (A : Type 0) : Type 0 where
  answered : A → Answer A
  thrown : GatewayError → Answer A

-- `InitiateInput` of the gateway
pub record GatewayInitiate : Type 0 where
  pub amount : ℤ
  pub description : Text
  pub callback_url : Text
  pub reference_id : Text
  pub user_mobile : Text
  pub user_email : Option Text

-- `InitiateOutput`
pub record GatewayInitiated : Type 0 where
  pub redirect_url : Text
  pub provider_reference : Text

-- `VerifyOutput`
pub record Verification : Type 0 where
  pub verified : Bool
  pub reference_code : Option Text
  pub card_pan : Option Text
  pub failure_reason : Option Text

-- `RefundInput` of the gateway
pub record GatewayRefund : Type 0 where
  pub provider_reference : Text
  pub amount : ℤ
  pub reason : Text

-- `PaymentProvider`: how the gateway answers one call of each kind.
pub record PaymentProvider : Type 0 where
  pub name : Text
  pub initiate : GatewayInitiate → Answer GatewayInitiated
  pub verify : Text → ℤ → Answer Verification
  pub refund : GatewayRefund → Answer Bool

abbrev pub payment_missing : Thrown
payment_missing = http ErrorCode.not_found not_found_status

-- `err instanceof Error ? err.message : 'Unknown provider error'`
abbrev pub message_of : GatewayError → Text
message_of (error m) = m
message_of unknown = codes "Unknown provider error"

-- What rethrowing the error throws.
abbrev pub rethrown : GatewayError → Thrown
rethrown (error m) = plain m
rethrown unknown = plain []

abbrev pub with_payment : ℕ → (Payment → Payment) → Store → Store
with_payment i f s = record s {
  payments = record { rows = update i f s.payments.rows; next = s.payments.next };
}

abbrev pub updated_payment : ℕ → (Payment → Payment) → Option Payment → Action Store Payment
updated_payment i f none s = (err (plain (codes "P2025")), s)
updated_payment i f (some p) s = (ok (f p), with_payment i f s)

-- `payment.update({ where: { id }, data })`: it throws if the row is not there.
unfoldable pub update_payment : ℕ → (Payment → Payment) → Action Store Payment
update_payment i f s = updated_payment i f (find_unique i s.payments.rows) s

abbrev pub notify :
    ℕ → NotificationType → List (String × PayloadValue) → List Channel → Action Store (Unit {0})
notify user_id type payload channels = modify (dispatch message)
  where
    message : Dispatch
    message = record { user_id = user_id; type = type; payload = payload; channels = channels }

-- `CORE_PAYMENT_PURPOSES`
abbrev pub wallet_topup : Text
wallet_topup = codes "wallet_topup"

-- `payment.purpose === 'wallet_topup'`
unfoldable pub is_topup : Text → Bool
is_topup purpose = text_eq purpose wallet_topup

-- `reason.slice(0, 500)`
abbrev pub clipped : Text → Text
clipped = take 500
