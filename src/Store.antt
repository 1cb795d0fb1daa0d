-- ===== src/Store.antt =====
-- The stored state of the money services: the tables of apps/api/prisma/schema.prisma that the
-- wallets, ledger, payouts and payments services read and write, as far as they read them, and
-- the notifications that they dispatch. Columns that only a default fills (`currency`,
-- `createdAt`, `updatedAt`, `submittedAt`, `requestedAt`, `initiatedAt`) are left out.
use saziqo_platform.Prelude.{ℕ, Option, List, ◌∷◌, Text, ℤ, String}
use saziqo_platform.Table.{Table, HasId}

-- `model Wallet`
pub record Wallet : Type 0 where
  pub id : ℕ
  pub user_id : ℕ
  pub balance : ℤ

-- `enum LedgerKind`
pub data LedgerKind : Type 0 where
  debit credit : LedgerKind

-- A JSON object of texts, as the services write it.
abbrev pub Metadata : Type 0
Metadata = List (Text × Text)

-- `model LedgerEntry`
pub record LedgerEntry : Type 0 where
  pub id : ℕ
  pub wallet_id : Option ℕ
  pub user_id : Option ℕ
  pub kind : LedgerKind
  pub amount : ℤ
  pub reference : Option Text
  pub description : Option Text
  pub metadata : Option Metadata

-- `enum PayoutStatus`
pub data PayoutStatus : Type 0 where
  pending approved rejected paid cancelled : PayoutStatus

-- `model PayoutRequest`
pub record PayoutRequest : Type 0 where
  pub id : ℕ
  pub user_id : ℕ
  pub wallet_id : ℕ
  pub amount : ℤ
  pub bank_account : Text
  pub account_holder : Text
  pub status : PayoutStatus
  pub reviewed_by_user_id : Option ℕ
  pub reviewed_at : Option ℕ
  pub rejection_reason : Option Text
  pub paid_at : Option ℕ
  pub payment_reference : Option Text

-- `enum PaymentStatus`
pub data PaymentStatus : Type 0 where
  pending succeeded failed cancelled expired : PaymentStatus

-- `model Payment`
pub record Payment : Type 0 where
  pub id : ℕ
  pub user_id : ℕ
  pub amount : ℤ
  pub purpose : Text
  pub description : Text
  pub status : PaymentStatus
  pub provider_name : Text
  pub provider_reference : Option Text
  pub reference_code : Option Text
  pub card_pan_masked : Option Text
  pub metadata : Metadata
  pub completed_at : Option ℕ
  pub failure_reason : Option Text

-- `enum RefundStatus`
pub data RefundStatus : Type 0 where
  pending_manual completed : RefundStatus

-- `model Refund`
pub record Refund : Type 0 where
  pub id : ℕ
  pub payment_id : ℕ
  pub amount : ℤ
  pub reason : Text
  pub status : RefundStatus
  pub requested_by_user_id : ℕ
  pub completed_at : Option ℕ
  pub bank_reference : Option Text

-- The columns of `model User` that the payments service reads.
pub record User : Type 0 where
  pub id : ℕ
  pub phone : Text
  pub email : Option Text

-- `NOTIFICATION_TYPES`, those that the money services use.
pub data NotificationType : Type 0 where
  wallet_credited wallet_debited : NotificationType
  payout_requested payout_approved payout_rejected payout_paid : NotificationType
  payment_succeeded payment_failed payment_cancelled payment_refunded : NotificationType

pub data Channel : Type 0 where
  in_app sms : Channel

pub data PayloadValue : Type 0 where
  number : ℤ → PayloadValue
  text : Text → PayloadValue

-- `DispatchInput`
pub record Dispatch : Type 0 where
  pub user_id : ℕ
  pub type : NotificationType
  pub payload : List (String × PayloadValue)
  pub channels : List Channel

pub record Store : Type 0 where
  pub users : List User
  pub wallets : Table Wallet
  pub entries : Table LedgerEntry
  pub payouts : Table PayoutRequest
  pub payments : Table Payment
  pub refunds : Table Refund
  pub dispatched : List Dispatch

instance abbrev pub wallet_key : HasId Wallet
wallet_key = record { id_of = λ w. w.id }

instance abbrev pub entry_key : HasId LedgerEntry
entry_key = record { id_of = λ e. e.id }

instance abbrev pub payout_key : HasId PayoutRequest
payout_key = record { id_of = λ p. p.id }

instance abbrev pub payment_key : HasId Payment
payment_key = record { id_of = λ p. p.id }

instance abbrev pub refund_key : HasId Refund
refund_key = record { id_of = λ r. r.id }

instance abbrev pub user_key : HasId User
user_key = record { id_of = λ u. u.id }

-- `notifications.dispatch(…)`. It catches every failure of its channels and never throws, so a
-- caller sees only that the request was made: the newest stands first.
abbrev pub dispatch : Dispatch → Store → Store
dispatch d s = record s { dispatched = d ∷ s.dispatched }
