-- ===== src/Payouts/Requests.antt =====
-- `request` of apps/api/src/core/payouts/payouts.service.ts: what it leaves in the store.
use saziqo_platform.Prelude.{
  ◌≡◌, true, Option, none, some, [], ◌∷◌, ◌++◌, arith, ◌==◌, pos, ◌-ℤ◌, -ℤ_parts, ◌≤ℤ◌, ◌<ℤ◌, codes,
  to_string, ◌⊎◌, inl, inr, Bool-cases, Option-cases, positive_or_not, le_or_lt,
}
use saziqo_platform.Action.{ok, err, http, ErrorCode, bad_request}
use saziqo_platform.Table.{find_unique, find_first, insert}
use saziqo_platform.Store.{
  Store, Wallet, LedgerKind, PayoutRequest, NotificationType, number, wallet_key,
}
use saziqo_platform.Ledger.{insufficient, wallet_missing}
use saziqo_platform.Ledger.Steps.{posted}
use saziqo_platform.PersianUtils.Iban.{is_valid_iranian_iban}
use saziqo_platform.Payouts.{
  RequestPayoutInput, requested_row, payout_entry, request, request_in_transaction,
}
use saziqo_platform.Payouts.Effects.{Refused, told}

-- The new row, numbered by the table.
abbrev pub new_payout : RequestPayoutInput → Wallet → Store → PayoutRequest
new_payout input owner s = requested_row input owner.id s.payouts.next

abbrev pub requested_store : RequestPayoutInput → Wallet → Wallet → Store → Store
requested_store input owner w s =
    let p = new_payout input owner s in
    posted
      (payout_entry owner.id p LedgerKind.debit (codes "payout:" ++ to_string p.id)
        (codes "Payout pending review"))
      owner.id (w.balance -ℤ input.amount)
      (record s { payouts = insert (requested_row input owner.id) s.payouts })

module _ (input : RequestPayoutInput) (owner : Wallet) (s : Store) where
  request_in_transaction-covered :
      (w : Wallet)
      → find_unique owner.id s.wallets.rows ≡ some w
      → input.amount ≤ℤ w.balance
      → request_in_transaction input owner s
        ≡ (ok (new_payout input owner s), requested_store input owner w s)
  unfolding request_in_transaction
  request_in_transaction-covered w e c = ground (arith, -ℤ_parts w.balance input.amount)

  request_in_transaction-short :
      (w : Wallet)
      → find_unique owner.id s.wallets.rows ≡ some w
      → w.balance <ℤ input.amount
      → (request_in_transaction input owner s).0 ≡ err insufficient
  unfolding request_in_transaction
  request_in_transaction-short w e c = ground (arith, -ℤ_parts w.balance input.amount)

  request_in_transaction-missing :
      find_unique owner.id s.wallets.rows ≡ none
      → (request_in_transaction input owner s).0 ≡ err wallet_missing
  unfolding request_in_transaction
  request_in_transaction-missing e = ground arith

-- `findByUserId`
abbrev pub owner_of : RequestPayoutInput → Store → Option Wallet
owner_of input s = find_first (λ (w : Wallet). w.user_id == input.user_id) s.wallets.rows

-- A request is refused, or it is of a positive amount that the user's wallet covers, to a valid
-- IBAN, and takes the amount.
pub request_outcome :
    (input : RequestPayoutInput) (s : Store)
    → Refused (request input s) s
      ⊎ ((owner : Wallet) × (w : Wallet) × (is_valid_iranian_iban input.bank_account ≡ true)
          × (owner_of input s ≡ some owner)
          × (pos 0 <ℤ input.amount)
          × (find_unique owner.id s.wallets.rows ≡ some w)
          × (input.amount ≤ℤ w.balance)
          × (request input s ≡ (
            ok (new_payout input owner s),
            told input.user_id NotificationType.payout_requested
                (("amount", number input.amount) ∷ [])
                (requested_store input owner w s),
          )))
unfolding request
request_outcome input s = elim (Bool-cases (is_valid_iranian_iban input.bank_account)) [
  | inr bad ↦ inl (http ErrorCode.invalid_iban bad_request, ground arith)
  | inl good ↦ elim (positive_or_not input.amount) [
    | inr n ↦ inl (http ErrorCode.validation_error bad_request, ground arith)
    | inl p ↦ elim (Option-cases (owner_of input s)) [
      | inl none_owned ↦ inl (wallet_missing, ground arith)
      | inr (owner, o) ↦ elim (Option-cases (find_unique owner.id s.wallets.rows)) [
        | inl e ↦
            inl (wallet_missing, ground (arith, request_in_transaction-missing input owner s e))
        | inr (w, e) ↦ elim (le_or_lt input.amount w.balance) [
          | inr c ↦
              inl (insufficient, ground (arith, request_in_transaction-short input owner s w e c))
          | inl c ↦ inr (
            owner,
            w,
            good,
            o,
            p,
            e,
            c,
            ground (arith, request_in_transaction-covered input owner s w e c),
          )
        ]
      ]
    ]
  ]
]
