-- ===== src/Payouts.antt =====
-- apps/api/src/core/payouts/payouts.service.ts: a user asks for the money of the wallet, which is
-- taken at once; an admin approves and pays, or rejects; the user may cancel. `now` is what
-- `new Date()` gives. The services read a row first and write afterwards, so each operation is a
-- check followed by a commit, between which other requests may run.
pub mod Effects
pub mod Requests
pub mod Money
pub mod Conservation
pub mod Sequences
pub mod Lifecycle
pub mod Race
pub mod Queries
use saziqo_platform.Prelude.{
  ℕ, ◌≡◌, refl, Bool, true, false, not, ◌&&◌, Option, none, some, List, [], ◌∷◌, ◌++◌, ◌==◌,
  if◌then◌else◌, ℤ, pos, ◌+ℤ◌, ◌-ℤ◌, ltb_ℤ, leb_ℤ, Text, codes, to_string, String,
}
use saziqo_platform.Action.{
  Action, Result, ok, err, Thrown, http, plain, ErrorCode, bad_request, not_found_status,
  conflict_status, unprocessable_entity, pure, or_throw, throw_if, transaction, gets, modify, ◌>>=◌,
  ◌>>◌,
}
use saziqo_platform.Table.{Table, find_unique, update, insert}
use saziqo_platform.Page.{Page, find_page}
use saziqo_platform.Store.{
  Store, Wallet, LedgerEntry, LedgerKind, Metadata, PayoutRequest, PayoutStatus, Dispatch,
  NotificationType, in_app, PayloadValue, number, text, dispatch, payout_key,
}
use saziqo_platform.Ledger.{
  find_by_user_id, lock_wallet, create_entry, update_balance, insufficient, wallet_missing,
}
use saziqo_platform.PersianUtils.Iban.{is_valid_iranian_iban}

-- `RequestPayoutInput`
pub record RequestPayoutInput : Type 0 where
  pub user_id : ℕ
  pub amount : ℤ
  pub bank_account : Text
  pub account_holder : Text

abbrev pub requested_row : RequestPayoutInput → ℕ → ℕ → PayoutRequest
requested_row input wallet_id i = record {
  id = i;
  user_id = input.user_id;
  wallet_id = wallet_id;
  amount = input.amount;
  bank_account = input.bank_account;
  account_holder = input.account_holder;
  status = PayoutStatus.pending;
  reviewed_by_user_id = none;
  reviewed_at = none;
  rejection_reason = none;
  paid_at = none;
  payment_reference = none;
}

abbrev pub create_payout : (ℕ → PayoutRequest) → Action Store PayoutRequest
create_payout mk s = (ok (mk s.payouts.next), record s { payouts = insert mk s.payouts })

abbrev pub record_missing : Thrown
record_missing = plain (codes "P2025")

abbrev pub updated_payout :
    ℕ → (PayoutRequest → PayoutRequest) → Option PayoutRequest → Action Store PayoutRequest
updated_payout i f none s = (err record_missing, s)
updated_payout i f (some p) s = (
  ok (f p),
  record s { payouts = record { rows = update i f s.payouts.rows; next = s.payouts.next } },
)

-- `payoutRequest.update({ where: { id }, data })`: it throws if the row is not there.
unfoldable pub update_payout : ℕ → (PayoutRequest → PayoutRequest) → Action Store PayoutRequest
update_payout i f s = updated_payout i f (find_unique i s.payouts.rows) s

-- `{ payoutRequestId: id.toString() }`
abbrev pub payout_metadata : ℕ → Metadata
payout_metadata i = (codes "payoutRequestId", to_string i) ∷ []

-- The ledger entry that goes with a payout.
abbrev pub payout_entry : ℕ → PayoutRequest → LedgerKind → Text → Text → ℕ → LedgerEntry
payout_entry wallet_id p kind reference description i = record {
  id = i;
  wallet_id = some wallet_id;
  user_id = some p.user_id;
  kind = kind;
  amount = p.amount;
  reference = some reference;
  description = some description;
  metadata = some (payout_metadata p.id);
}

abbrev pub notify : ℕ → NotificationType → List (String × PayloadValue) → Action Store (Unit {0})
notify user_id type payload = modify (dispatch message)
  where
    message : Dispatch
    message = record { user_id = user_id; type = type; payload = payload; channels = in_app ∷ [] }

unfoldable pub request_in_transaction : RequestPayoutInput → Wallet → Action Store PayoutRequest
unfolding lock_wallet
request_in_transaction input wallet = do
  payout_row ← create_payout (requested_row input wallet.id)
  wallet_row ← lock_wallet wallet.id
  let new_balance = wallet_row.balance -ℤ input.amount
  throw_if (ltb_ℤ new_balance (pos 0)) insufficient
  e ← create_entry (
      payout_entry wallet.id payout_row LedgerKind.debit
        (codes "payout:" ++ to_string payout_row.id) (codes "Payout pending review"))
  update_balance wallet.id new_balance
  pure payout_row

-- `request`
unfoldable pub request : RequestPayoutInput → Action Store PayoutRequest
unfolding find_by_user_id
request input = do
  throw_if (not (is_valid_iranian_iban input.bank_account))
      (http ErrorCode.invalid_iban bad_request)
  throw_if (leb_ℤ input.amount (pos 0)) (http ErrorCode.validation_error bad_request)
  wallet ← find_by_user_id input.user_id
  payout ← transaction (request_in_transaction input wallet)
  notify input.user_id NotificationType.payout_requested (("amount", number input.amount) ∷ [])
  pure payout

abbrev pub payout_missing : Thrown
payout_missing = http ErrorCode.not_found not_found_status

-- `findOrThrow`
unfoldable pub find_or_throw : ℕ → Action Store PayoutRequest
find_or_throw i = do row ← gets (λ s. find_unique i s.payouts.rows); or_throw row payout_missing

abbrev pub is_pending : PayoutStatus → Bool
is_pending PayoutStatus.pending = true
is_pending _ = false

abbrev pub is_approved : PayoutStatus → Bool
is_approved PayoutStatus.approved = true
is_approved _ = false

-- The check of `approve` and of `reject`.
unfoldable pub find_pending : ℕ → Action Store PayoutRequest
unfolding find_or_throw
find_pending i = do
  existing ← find_or_throw i
  throw_if (not (is_pending existing.status)) (http ErrorCode.payout_not_pending conflict_status)
  pure existing

abbrev pub as_approved : ℕ → ℕ → PayoutRequest → PayoutRequest
as_approved reviewer now p = record p {
  status = PayoutStatus.approved;
  reviewed_by_user_id = some reviewer;
  reviewed_at = some now;
}

unfoldable pub approve_commit : ℕ → ℕ → PayoutRequest → Action Store PayoutRequest
unfolding update_payout
approve_commit reviewer now existing = do
  updated ← update_payout existing.id (as_approved reviewer now)
  notify existing.user_id NotificationType.payout_approved (("amount", number existing.amount) ∷ [])
  pure updated

-- `approve`
unfoldable pub approve : ℕ → ℕ → ℕ → Action Store PayoutRequest
unfolding find_pending approve_commit
approve payout_id reviewer now = do
  existing ← find_pending payout_id
  approve_commit reviewer now existing

-- The hold goes back to the wallet: the end of the transactions of `reject` and `cancel`.
unfoldable pub release_hold : PayoutRequest → Text → Text → Action Store (Unit {0})
unfolding lock_wallet
release_hold existing reference description = do
  wallet_row ← lock_wallet existing.wallet_id
  e ←
      create_entry
        (payout_entry existing.wallet_id existing LedgerKind.credit reference description)
  update_balance existing.wallet_id (wallet_row.balance +ℤ existing.amount)

abbrev pub as_rejected : ℕ → ℕ → Text → PayoutRequest → PayoutRequest
as_rejected reviewer now reason p = record p {
  status = PayoutStatus.rejected;
  reviewed_by_user_id = some reviewer;
  reviewed_at = some now;
  rejection_reason = some reason;
}

unfoldable pub reject_in_transaction : ℕ → ℕ → Text → PayoutRequest → Action Store PayoutRequest
unfolding update_payout release_hold
reject_in_transaction reviewer now reason existing = do
  row ← update_payout existing.id (as_rejected reviewer now reason)
  release_hold existing (codes "payout:rejected:" ++ to_string existing.id)
      (codes "Payout rejected — refund")
  pure row

unfoldable pub reject_commit : ℕ → ℕ → Text → PayoutRequest → Action Store PayoutRequest
unfolding reject_in_transaction
reject_commit reviewer now reason existing = do
  updated ← transaction (reject_in_transaction reviewer now reason existing)
  notify existing.user_id NotificationType.payout_rejected
      (("amount", number existing.amount) ∷ ("reason", text reason) ∷ [])
  pure updated

-- `reject`
unfoldable pub reject : ℕ → ℕ → Text → ℕ → Action Store PayoutRequest
unfolding find_pending reject_commit
reject payout_id reviewer reason now = do
  existing ← find_pending payout_id
  reject_commit reviewer now reason existing

abbrev pub as_paid : ℕ → ℕ → Text → PayoutRequest → PayoutRequest
as_paid reviewer now payment_reference p = record p {
  status = PayoutStatus.paid;
  paid_at = some now;
  payment_reference = some payment_reference;
  reviewed_by_user_id = some reviewer;
}

-- `markPaid`
unfoldable pub mark_paid : ℕ → ℕ → Text → ℕ → Action Store PayoutRequest
unfolding find_or_throw update_payout
mark_paid payout_id reviewer payment_reference now = do
  existing ← find_or_throw payout_id
  throw_if (not (is_approved existing.status)) (http ErrorCode.payout_not_approved conflict_status)
  updated ← update_payout payout_id (as_paid reviewer now payment_reference)
  notify existing.user_id NotificationType.payout_paid
      (("amount", number existing.amount) ∷ ("paymentReference", text payment_reference) ∷ [])
  pure updated

-- The checks of `cancel`.
unfoldable pub cancel_check : ℕ → ℕ → Action Store PayoutRequest
unfolding find_or_throw
cancel_check payout_id user_id = do
  existing ← find_or_throw payout_id
  throw_if (not (existing.user_id == user_id)) payout_missing
  throw_if (not (is_pending existing.status)) (http ErrorCode.payout_not_pending conflict_status)
  pure existing

abbrev pub as_cancelled : PayoutRequest → PayoutRequest
as_cancelled p = record p { status = PayoutStatus.cancelled }

unfoldable pub cancel_in_transaction : PayoutRequest → Action Store PayoutRequest
unfolding update_payout release_hold
cancel_in_transaction existing = do
  row ← update_payout existing.id as_cancelled
  release_hold existing (codes "payout:cancelled:" ++ to_string existing.id)
      (codes "Payout cancelled — refund")
  pure row

-- `cancel`
unfoldable pub cancel : ℕ → ℕ → Action Store PayoutRequest
unfolding cancel_check cancel_in_transaction
cancel payout_id user_id = do
  existing ← cancel_check payout_id user_id
  transaction (cancel_in_transaction existing)
