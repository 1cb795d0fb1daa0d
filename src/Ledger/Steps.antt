-- ===== src/Ledger/Steps.antt =====
-- What `credit` and `debit` of apps/api/src/core/ledger/ledger.service.ts return and write, branch
-- by branch, so that their callers' proofs leave them shut.
use saziqo_platform.Prelude.{
  ◌⊎◌, ℕ, ◌≡◌, none, some, arith, if◌then◌else◌, ℤ, pos, ◌+ℤ◌, ◌-ℤ◌, ◌≤ℤ◌, ◌<ℤ◌, -ℤ_parts, leb_ℤ,
}
use saziqo_platform.Action.{Result, ok, err, Thrown, http, ErrorCode, bad_request}
use saziqo_platform.Table.{find_unique, update, insert}
use saziqo_platform.Store.{Store, Wallet, LedgerEntry, LedgerKind, NotificationType, wallet_key}
use saziqo_platform.Ledger.{
  LedgerWriteInput, credit, debit, credit_in_transaction, debit_in_transaction, with_balance,
  notify_owner, entry_of, Posted, wallet_missing, insufficient,
}

-- A ledger entry together with the balance that it leads to.
abbrev pub posted : (ℕ → LedgerEntry) → ℕ → ℤ → Store → Store
posted mk i b s = record s {
  entries = insert mk s.entries;
  wallets = record { rows = update i (with_balance b) s.wallets.rows; next = s.wallets.next };
}

-- What is thrown for an amount that is not positive, or else for a wallet that is not there.
abbrev pub refusal : ℤ → Thrown
refusal amount =
    if leb_ℤ amount (pos 0) then http ErrorCode.validation_error bad_request else wallet_missing

abbrev pub posted_by : LedgerWriteInput → LedgerKind → Wallet → ℤ → Store → Result Posted × Store
posted_by input kind w b s = (
  ok (record {
    entry = entry_of input kind w s.entries.next;
    new_balance = b;
    user_id = w.user_id;
  }),
  posted (entry_of input kind w) input.wallet_id b s,
)

pub credit_in_transaction-found :
    (input : LedgerWriteInput) (w : Wallet) (s : Store)
    → find_unique input.wallet_id s.wallets.rows ≡ some w
    → credit_in_transaction input s
      ≡ posted_by input LedgerKind.credit w (w.balance +ℤ input.amount) s
unfolding credit_in_transaction
credit_in_transaction-found input w s e = ground arith

pub credit_in_transaction-missing :
    (input : LedgerWriteInput) (s : Store)
    → find_unique input.wallet_id s.wallets.rows ≡ none
    → credit_in_transaction input s ≡ (err wallet_missing, s)
unfolding credit_in_transaction
credit_in_transaction-missing input s e = ground arith

-- A positive amount on a known wallet: the entry, the balance and the notification.
pub credit-found :
    (input : LedgerWriteInput) (w : Wallet) (s : Store)
    → pos 0 <ℤ input.amount
    → find_unique input.wallet_id s.wallets.rows ≡ some w
    → let b = w.balance +ℤ input.amount in
      credit input s ≡ (
        ok (entry_of input LedgerKind.credit w s.entries.next),
        (notify_owner NotificationType.wallet_credited w.user_id input.amount b
            (posted (entry_of input LedgerKind.credit w) input.wallet_id b s)).1,
      )
unfolding credit
credit-found input w s p e = ground (arith, credit_in_transaction-found input w s e)

-- The two ways in which a call is refused before the balance is looked at.
pub credit-refused :
    (input : LedgerWriteInput) (s : Store)
    → (input.amount ≤ℤ pos 0) ⊎ (find_unique input.wallet_id s.wallets.rows ≡ none)
    → credit input s ≡ (err (refusal input.amount), s)
unfolding credit
credit-refused input s h = ground (arith, credit_in_transaction-missing input s)

pub debit_in_transaction-found :
    (input : LedgerWriteInput) (w : Wallet) (s : Store)
    → find_unique input.wallet_id s.wallets.rows ≡ some w
    → input.amount ≤ℤ w.balance
    → debit_in_transaction input s
      ≡ posted_by input LedgerKind.debit w (w.balance -ℤ input.amount) s
unfolding debit_in_transaction
debit_in_transaction-found input w s e c = ground (arith, -ℤ_parts w.balance input.amount)

pub debit_in_transaction-short :
    (input : LedgerWriteInput) (w : Wallet) (s : Store)
    → find_unique input.wallet_id s.wallets.rows ≡ some w
    → w.balance <ℤ input.amount
    → debit_in_transaction input s ≡ (err insufficient, s)
unfolding debit_in_transaction
debit_in_transaction-short input w s e c = ground (arith, -ℤ_parts w.balance input.amount)

pub debit_in_transaction-missing :
    (input : LedgerWriteInput) (s : Store)
    → find_unique input.wallet_id s.wallets.rows ≡ none
    → debit_in_transaction input s ≡ (err wallet_missing, s)
unfolding debit_in_transaction
debit_in_transaction-missing input s e = ground arith

-- A positive amount that the wallet covers: the entry, the balance and the notification.
pub debit-found :
    (input : LedgerWriteInput) (w : Wallet) (s : Store)
    → pos 0 <ℤ input.amount
    → find_unique input.wallet_id s.wallets.rows ≡ some w
    → input.amount ≤ℤ w.balance
    → let b = w.balance -ℤ input.amount in
      debit input s ≡ (
        ok (entry_of input LedgerKind.debit w s.entries.next),
        (notify_owner NotificationType.wallet_debited w.user_id input.amount b
            (posted (entry_of input LedgerKind.debit w) input.wallet_id b s)).1,
      )
unfolding debit
debit-found input w s p e c = ground (arith, debit_in_transaction-found input w s e c)

pub debit-short :
    (input : LedgerWriteInput) (w : Wallet) (s : Store)
    → pos 0 <ℤ input.amount
    → find_unique input.wallet_id s.wallets.rows ≡ some w
    → w.balance <ℤ input.amount
    → debit input s ≡ (err insufficient, s)
unfolding debit
debit-short input w s p e c = ground (arith, debit_in_transaction-short input w s e c)

-- The two ways in which a call is refused before the balance is looked at.
pub debit-refused :
    (input : LedgerWriteInput) (s : Store)
    → (input.amount ≤ℤ pos 0) ⊎ (find_unique input.wallet_id s.wallets.rows ≡ none)
    → debit input s ≡ (err (refusal input.amount), s)
unfolding debit
debit-refused input s h = ground (arith, debit_in_transaction-missing input s)
