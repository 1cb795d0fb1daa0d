-- ===== src/Ledger/TransferSteps.antt =====
-- What `transfer` of apps/api/src/core/ledger/ledger.service.ts returns and writes.
use saziqo_platform.Prelude.{
  suc, ◌≡◌, ◌≢◌, none, some, arith, ◌==◌, if◌then◌else◌, pos, ◌+ℤ◌, ◌-ℤ◌, -ℤ_parts, ◌≤ℤ◌, ◌<ℤ◌, ◌⊎◌,
  inl, inr, ltb, Bool-cases, Option-cases, positive_or_not, le_or_lt,
}
use native.Mathlib.Decide.{ℕ_discrete}
use saziqo_platform.Action.{ok, err, http, ErrorCode, bad_request, Thrown}
use saziqo_platform.Table.{find_unique, find_unique_id}
use saziqo_platform.Store.{Store, Wallet, LedgerKind, NotificationType, wallet_key}
use saziqo_platform.Ledger.{TransferInput, notify_owner, wallet_missing, insufficient}
use saziqo_platform.Ledger.Transfer.{Transferred, transfer_entry, transfer_in_transaction, transfer}
use saziqo_platform.Ledger.Steps.{posted, refusal}

-- The store after both entries and both balances.
abbrev pub both_posted : TransferInput → Wallet → Wallet → Store → Store
both_posted input u v s =
    posted (transfer_entry input LedgerKind.credit input.to_wallet_id v) input.to_wallet_id
      (v.balance +ℤ input.amount)
      (posted (transfer_entry input LedgerKind.debit input.from_wallet_id u) input.from_wallet_id
        (u.balance -ℤ input.amount) s)

abbrev pub transferred : TransferInput → Wallet → Wallet → Store → Transferred
transferred input u v s = record {
  debit_entry = transfer_entry input LedgerKind.debit input.from_wallet_id u s.entries.next;
  credit_entry = transfer_entry input LedgerKind.credit input.to_wallet_id v (suc s.entries.next);
  from_user_id = u.user_id;
  to_user_id = v.user_id;
  new_from_balance = u.balance -ℤ input.amount;
  new_to_balance = v.balance +ℤ input.amount;
}

module _ (input : TransferInput) (u v : Wallet) (s : Store)
    (distinct : input.from_wallet_id ≢ input.to_wallet_id)
    (from_found : find_unique input.from_wallet_id s.wallets.rows ≡ some u)
    (to_found : find_unique input.to_wallet_id s.wallets.rows ≡ some v) where
  pub transfer_in_transaction-covered :
      input.amount ≤ℤ u.balance
      → transfer_in_transaction input s ≡ (ok (transferred input u v s), both_posted input u v s)
  unfolding transfer_in_transaction
  transfer_in_transaction-covered c =
      elim (Bool-cases (ltb input.from_wallet_id input.to_wallet_id)) [
        | inl e ↦ rw e (
            ground (
              arith,
              -ℤ_parts u.balance input.amount,
              find_unique_id input.from_wallet_id u s.wallets.rows,
              find_unique_id input.to_wallet_id v s.wallets.rows,
            ))
        | inr e ↦ rw e (
            ground (
              arith,
              -ℤ_parts u.balance input.amount,
              find_unique_id input.from_wallet_id u s.wallets.rows,
              find_unique_id input.to_wallet_id v s.wallets.rows,
            ))
      ]

  pub transfer_in_transaction-short :
      u.balance <ℤ input.amount → transfer_in_transaction input s ≡ (err insufficient, s)
  unfolding transfer_in_transaction
  transfer_in_transaction-short c =
      elim (Bool-cases (ltb input.from_wallet_id input.to_wallet_id)) [
        | inl e ↦ rw e (
            ground (
              arith,
              -ℤ_parts u.balance input.amount,
              find_unique_id input.from_wallet_id u s.wallets.rows,
              find_unique_id input.to_wallet_id v s.wallets.rows,
            ))
        | inr e ↦ rw e (
            ground (
              arith,
              -ℤ_parts u.balance input.amount,
              find_unique_id input.from_wallet_id u s.wallets.rows,
              find_unique_id input.to_wallet_id v s.wallets.rows,
            ))
      ]

pub transfer_in_transaction-missing :
    (input : TransferInput) (s : Store)
    → (find_unique input.from_wallet_id s.wallets.rows ≡ none)
      ⊎ (find_unique input.to_wallet_id s.wallets.rows ≡ none)
    → transfer_in_transaction input s ≡ (err wallet_missing, s)
unfolding transfer_in_transaction
transfer_in_transaction-missing input s h =
    elim (Bool-cases (ltb input.from_wallet_id input.to_wallet_id)) [
      | inl e ↦ rw e (ground arith)
      | inr e ↦ rw e (ground arith)
    ]

-- The two notifications that follow the transaction.
abbrev pub transfer_notified : TransferInput → Wallet → Wallet → Store → Store
transfer_notified input u v s =
    (notify_owner NotificationType.wallet_credited v.user_id input.amount
      (v.balance +ℤ input.amount)
      (notify_owner NotificationType.wallet_debited u.user_id input.amount
        (u.balance -ℤ input.amount) s).1).1

-- What is thrown before any balance is compared.
abbrev pub transfer_refusal : TransferInput → Thrown
transfer_refusal input =
    if input.from_wallet_id == input.to_wallet_id
    then http ErrorCode.validation_error bad_request
    else refusal input.amount

module _ (input : TransferInput) (s : Store) where
  pub transfer-covered :
      (u v : Wallet)
      → pos 0 <ℤ input.amount
      → input.from_wallet_id ≢ input.to_wallet_id
      → find_unique input.from_wallet_id s.wallets.rows ≡ some u
      → find_unique input.to_wallet_id s.wallets.rows ≡ some v
      → input.amount ≤ℤ u.balance
      → transfer input s
        ≡ (ok (transferred input u v s), transfer_notified input u v (both_posted input u v s))
  unfolding transfer
  transfer-covered u v p ne eu ev c =
      ground (arith, transfer_in_transaction-covered input u v s ne eu ev c)

  pub transfer-short :
      (u v : Wallet)
      → pos 0 <ℤ input.amount
      → input.from_wallet_id ≢ input.to_wallet_id
      → find_unique input.from_wallet_id s.wallets.rows ≡ some u
      → find_unique input.to_wallet_id s.wallets.rows ≡ some v
      → u.balance <ℤ input.amount
      → transfer input s ≡ (err insufficient, s)
  unfolding transfer
  transfer-short u v p ne eu ev c =
      ground (arith, transfer_in_transaction-short input u v s ne eu ev c)

  -- Why a transfer is refused before any balance is compared.
  pub data IsRefused : Type 0 where
    not_positive : input.amount ≤ℤ pos 0 → IsRefused
    same_wallet : input.from_wallet_id ≡ input.to_wallet_id → IsRefused
    from_missing : find_unique input.from_wallet_id s.wallets.rows ≡ none → IsRefused
    to_missing : find_unique input.to_wallet_id s.wallets.rows ≡ none → IsRefused

  pub transfer-refused : IsRefused → transfer input s ≡ (err (transfer_refusal input), s)
  unfolding transfer
  transfer-refused (not_positive h) = ground arith
  transfer-refused (same_wallet h) = ground arith
  transfer-refused (from_missing h) =
      ground (arith, transfer_in_transaction-missing input s (inl h))
  transfer-refused (to_missing h) = ground (arith, transfer_in_transaction-missing input s (inr h))

  -- Every transfer is refused, short of funds, or carried out.
  pub data Outcome : Type 0 where
    refused : IsRefused → Outcome
    short :
        (u v : Wallet)
        → pos 0 <ℤ input.amount
        → input.from_wallet_id ≢ input.to_wallet_id
        → find_unique input.from_wallet_id s.wallets.rows ≡ some u
        → find_unique input.to_wallet_id s.wallets.rows ≡ some v
        → u.balance <ℤ input.amount
        → Outcome
    covered :
        (u v : Wallet)
        → pos 0 <ℤ input.amount
        → input.from_wallet_id ≢ input.to_wallet_id
        → find_unique input.from_wallet_id s.wallets.rows ≡ some u
        → find_unique input.to_wallet_id s.wallets.rows ≡ some v
        → input.amount ≤ℤ u.balance
        → Outcome

  found_outcome :
      (u v : Wallet)
      → pos 0 <ℤ input.amount
      → input.from_wallet_id ≢ input.to_wallet_id
      → find_unique input.from_wallet_id s.wallets.rows ≡ some u
      → find_unique input.to_wallet_id s.wallets.rows ≡ some v
      → Outcome
  found_outcome u v p ne eu ev = elim (le_or_lt input.amount u.balance) [
    | inl c ↦ covered u v p ne eu ev c
    | inr c ↦ short u v p ne eu ev c
  ]

  distinct_outcome : pos 0 <ℤ input.amount → input.from_wallet_id ≢ input.to_wallet_id → Outcome
  distinct_outcome p ne = elim (Option-cases (find_unique input.from_wallet_id s.wallets.rows)) [
    | inl e ↦ refused (from_missing e)
    | inr (u, eu) ↦ elim (Option-cases (find_unique input.to_wallet_id s.wallets.rows)) [
      | inl e ↦ refused (to_missing e)
      | inr (v, ev) ↦ found_outcome u v p ne eu ev
    ]
  ]

  pub outcome : Outcome
  outcome = elim (positive_or_not input.amount) [
    | inr n ↦ refused (not_positive n)
    | inl p ↦ elim (ℕ_discrete input.from_wallet_id input.to_wallet_id) [
      | yes e ↦ refused (same_wallet e)
      | no ne ↦ distinct_outcome p ne
    ]
  ]
