-- ===== src/Ledger/Refinement.antt =====
-- An independent description of the ledger service (apps/api/src/core/ledger/ledger.service.ts):
-- a map of balances, what each operation should do to it, and that the code does it.
use saziqo_platform.Prelude.{
  ℕ, ◌≡◌, Option, none, some, Bool, true, false, not, ◌&&◌, arith, ◌==◌, if◌then◌else◌, ℤ, pos,
  ◌+ℤ◌, ◌-ℤ◌, ltb_ℤ, leb_ℤ, is_some, inl, inr, Option-cases, positive_or_not, le_or_lt,
}
use saziqo_platform.Action.{Result, ok, err}
use saziqo_platform.Table.{find_unique}
use saziqo_platform.Store.{Store, LedgerKind, wallet_key}
use saziqo_platform.Ledger.{LedgerWriteInput, TransferInput, credit, debit, entry_of}
use saziqo_platform.Ledger.Steps.{
  credit-found, credit-refused, debit-found, debit-short, debit-refused,
}
use saziqo_platform.Ledger.Transfer.{transfer}
use saziqo_platform.Ledger.TransferSteps.{
  refused, short, covered, outcome, both_posted, transfer-covered, transfer-short, transfer-refused,
  IsRefused, not_positive, same_wallet, from_missing, to_missing,
}
use saziqo_platform.Ledger.Conservation.{
  balance_of, balance_of-posted, balance_of-both_posted, transfer_notified-wallets,
}

-- Which balance each wallet has; `none` where there is no wallet.
abbrev pub Balances : Type 0
Balances = ℕ → Option ℤ

abbrev pub raised : ℤ → Option ℤ → Option ℤ
raised a none = none
raised a (some b) = some (b +ℤ a)

abbrev pub lowered : ℤ → Option ℤ → Option ℤ
lowered a none = none
lowered a (some b) = some (b -ℤ a)

abbrev pub covers : ℤ → Option ℤ → Bool
covers a none = false
covers a (some b) = leb_ℤ a b

abbrev pub add_to : ℕ → ℤ → Balances → Balances
add_to i a m j = if i == j then raised a (m j) else m j

abbrev pub take_from : ℕ → ℤ → Balances → Balances
take_from i a m j = if i == j then lowered a (m j) else m j

-- When an operation should succeed.
abbrev pub may_credit : ℕ → ℤ → Balances → Bool
may_credit i a m = ltb_ℤ (pos 0) a && is_some (m i)

abbrev pub may_debit : ℕ → ℤ → Balances → Bool
may_debit i a m = ltb_ℤ (pos 0) a && covers a (m i)

abbrev pub may_transfer : ℕ → ℕ → ℤ → Balances → Bool
may_transfer f t a m = ltb_ℤ (pos 0) a && (not (f == t) && (is_some (m t) && covers a (m f)))

abbrev pub is_ok : {A : Type 0} → Result A → Bool
is_ok (ok _) = true
is_ok (err _) = false

-- What an operation should do, by whether it may.
abbrev pub guarded : Bool → (Balances → Balances) → Balances → Balances
guarded may f m = if may then f m else m

-- A credit raises the balance of its wallet by the amount and no other balance, exactly when the
-- amount is positive and the wallet is there; otherwise it throws and every balance stays.
pub credit-refines :
    (input : LedgerWriteInput) (s : Store)
    → let m = balance_of s in
      let may = may_credit input.wallet_id input.amount m in
      (is_ok (credit input s).0 ≡ may)
      × ((j : ℕ)
          → balance_of (credit input s).1 j ≡ guarded may (add_to input.wallet_id input.amount) m j)
credit-refines input s = elim (positive_or_not input.amount) [
  | inl p ↦ elim (Option-cases (find_unique input.wallet_id s.wallets.rows)) [
    | inl e ↦ rw (credit-refused input s (inr e)) (ground arith, λ j. ground arith)
    | inr (w, e) ↦ rw (credit-found input w s p e) (
      ground arith,
      λ j. ground (
        arith,
        balance_of-posted (entry_of input LedgerKind.credit w) input.wallet_id
            (w.balance +ℤ input.amount) w s j e,
      ),
    )
  ]
  | inr n ↦ rw (credit-refused input s (inl n)) (ground arith, λ j. ground arith)
]

-- A debit lowers the balance of its wallet by the amount and no other balance, exactly when the
-- amount is positive and the balance covers it; otherwise it throws and every balance stays.
pub debit-refines :
    (input : LedgerWriteInput) (s : Store)
    → let m = balance_of s in
      let may = may_debit input.wallet_id input.amount m in
      (is_ok (debit input s).0 ≡ may)
      × ((j : ℕ)
          → balance_of (debit input s).1 j
            ≡ guarded may (take_from input.wallet_id input.amount) m j)
debit-refines input s = elim (positive_or_not input.amount) [
  | inl p ↦ elim (Option-cases (find_unique input.wallet_id s.wallets.rows)) [
    | inl e ↦ rw (debit-refused input s (inr e)) (ground arith, λ j. ground arith)
    | inr (w, e) ↦ elim (le_or_lt input.amount w.balance) [
      | inl c ↦ rw (debit-found input w s p e c) (
        ground arith,
        λ j. ground (
          arith,
          balance_of-posted (entry_of input LedgerKind.debit w) input.wallet_id
              (w.balance -ℤ input.amount) w s j e,
        ),
      )
      | inr c ↦ rw (debit-short input w s p e c) (ground arith, λ j. ground arith)
    ]
  ]
  | inr n ↦ rw (debit-refused input s (inl n)) (ground arith, λ j. ground arith)
]

-- What a transfer should do.
abbrev pub transfer_spec : TransferInput → Balances → Balances
transfer_spec input m =
    guarded (may_transfer input.from_wallet_id input.to_wallet_id input.amount m)
      (λ n. add_to input.to_wallet_id input.amount (take_from input.from_wallet_id input.amount n))
      m

refused_may :
    (input : TransferInput) (s : Store)
    → IsRefused input s
    → may_transfer input.from_wallet_id input.to_wallet_id input.amount (balance_of s) ≡ false
refused_may input s (not_positive h) = ground arith
refused_may input s (same_wallet h) = ground arith
refused_may input s (from_missing h) = ground arith
refused_may input s (to_missing h) = ground arith

-- A transfer lowers the one balance and raises the other by the amount, exactly when the amount is
-- positive, the wallets are two that are there, and the first covers it; otherwise it throws and
-- every balance stays.
pub transfer-refines :
    (input : TransferInput) (s : Store)
    → let m = balance_of s in
      (is_ok (transfer input s).0
        ≡ may_transfer input.from_wallet_id input.to_wallet_id input.amount m)
      × ((j : ℕ) → balance_of (transfer input s).1 j ≡ transfer_spec input m j)
transfer-refines input s = elim (outcome input s) [
  | refused r ↦
      rw (transfer-refused input s r)
        (ground (arith, refused_may input s r), λ j. ground (arith, refused_may input s r))
  | short u v p ne eu ev c ↦
      rw (transfer-short input s u v p ne eu ev c) (ground arith, λ j. ground arith)
  | covered u v p ne eu ev c ↦ rw (transfer-covered input s u v p ne eu ev c) (
    ground arith,
    λ j. ground (
      arith,
      balance_of-both_posted input u v s ne eu ev j,
      transfer_notified-wallets input u v s ne eu ev (both_posted input u v s),
    ),
  )
]
