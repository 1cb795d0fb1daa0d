-- ===== src/Ledger/Transfer.antt =====
-- `transfer` of apps/api/src/core/ledger/ledger.service.ts.
use saziqo_platform.Prelude.{
  ℕ, Option, none, some, [], ◌∷◌, ltb, ◌==◌, if◌then◌else◌, ℤ, pos, ◌+ℤ◌, ◌-ℤ◌, ltb_ℤ, Text, codes,
  to_string, text_eq,
}
use saziqo_platform.Action.{
  Action, http, ErrorCode, bad_request, pure, throw_if, transaction, ◌>>=◌, ◌>>◌,
}
use saziqo_platform.Store.{Store, Wallet, LedgerEntry, LedgerKind, Metadata, NotificationType}
use saziqo_platform.Ledger.{
  TransferInput, assert_positive, lock_wallet, create_entry, update_balance, notify_owner,
  insufficient,
}

-- `{ ...object, [key]: value }`
unfoldable pub assign : Text → Text → Metadata → Metadata
assign k v [] = (k, v) ∷ []
assign k v ((j, u) ∷ m) = if text_eq j k then (k, v) ∷ m else (j, u) ∷ assign k v m

abbrev pub given : Option Metadata → Metadata
given none = []
given (some m) = m

unfoldable pub transfer_metadata : TransferInput → Metadata
unfolding assign
transfer_metadata input =
    assign (codes "toWalletId") (to_string input.to_wallet_id)
      (assign (codes "fromWalletId") (to_string input.from_wallet_id) (given input.metadata))

abbrev pub transfer_entry : TransferInput → LedgerKind → ℕ → Wallet → ℕ → LedgerEntry
transfer_entry input kind wallet_id w i = record {
  id = i;
  wallet_id = some wallet_id;
  user_id = some w.user_id;
  kind = kind;
  amount = input.amount;
  reference = input.reference;
  description = input.description;
  metadata = some (transfer_metadata input);
}

pub record Transferred : Type 0 where
  pub debit_entry : LedgerEntry
  pub credit_entry : LedgerEntry
  pub from_user_id : ℕ
  pub to_user_id : ℕ
  pub new_from_balance : ℤ
  pub new_to_balance : ℤ

-- The lower id is locked first.
unfoldable pub transfer_in_transaction : TransferInput → Action Store Transferred
unfolding lock_wallet
transfer_in_transaction input = do
  let from_first = ltb input.from_wallet_id input.to_wallet_id
  let first_id = if from_first then input.from_wallet_id else input.to_wallet_id
  let second_id = if from_first then input.to_wallet_id else input.from_wallet_id
  first_locked ← lock_wallet first_id
  second_locked ← lock_wallet second_id
  let from_wallet = if first_locked.id == input.from_wallet_id then first_locked else second_locked
  let to_wallet = if first_locked.id == input.to_wallet_id then first_locked else second_locked
  let nfb = from_wallet.balance -ℤ input.amount
  throw_if (ltb_ℤ nfb (pos 0)) insufficient
  de ← create_entry (transfer_entry input LedgerKind.debit input.from_wallet_id from_wallet)
  update_balance input.from_wallet_id nfb
  let ntb = to_wallet.balance +ℤ input.amount
  ce ← create_entry (transfer_entry input LedgerKind.credit input.to_wallet_id to_wallet)
  update_balance input.to_wallet_id ntb
  pure (record {
    debit_entry = de;
    credit_entry = ce;
    from_user_id = from_wallet.user_id;
    to_user_id = to_wallet.user_id;
    new_from_balance = nfb;
    new_to_balance = ntb;
  })

-- `LedgerService.transfer`
unfoldable pub transfer : TransferInput → Action Store Transferred
unfolding assert_positive
transfer input = do
  assert_positive input.amount
  throw_if (input.from_wallet_id == input.to_wallet_id)
      (http ErrorCode.validation_error bad_request)
  t ← transaction (transfer_in_transaction input)
  notify_owner NotificationType.wallet_debited t.from_user_id input.amount t.new_from_balance
  notify_owner NotificationType.wallet_credited t.to_user_id input.amount t.new_to_balance
  pure t
