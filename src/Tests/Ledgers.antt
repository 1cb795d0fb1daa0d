-- ===== src/Tests/Ledgers.antt =====
-- The theorems on apps/api/src/core/ledger/ledger.service.ts at concrete inputs.
use saziqo_platform.Prelude.{ℕ, ◌≡◌, some, [], ◌∷◌, pos, arith, ◌↔◌, All, take}
use saziqo_platform.Action.{ok}
use saziqo_platform.Table.{find_unique, Descending}
use saziqo_platform.Store.{Wallet, wallet_key}
use saziqo_platform.Ledger.{credit, debit, computed_balance, verify_balance}
use saziqo_platform.Ledger.Transfer.{transfer}
use saziqo_platform.Ledger.Consistency.{IsConsistent}
use saziqo_platform.Ledger.Conservation.{balance_of, total, transfer-total}
use saziqo_platform.Ledger.Refinement.{
  is_ok, may_credit, may_debit, may_transfer, guarded, add_to, take_from, transfer_spec,
  credit-refines, debit-refines, transfer-refines,
}
use saziqo_platform.Ledger.Sequences.{
  written_all, credits, debits, transfers, written_all-IsConsistent,
}
use saziqo_platform.Ledger.Reports.{
  reconciliation_report, report_limit, report_no_drift_iff, verify_balance_iff,
}
use saziqo_platform.Tests.Books.{books, books-IsConsistent, write, move}

written_all-IsConsistent_example :
    IsConsistent
      (written_all (credits (write 1 20) ∷ debits (write 1 90) ∷ transfers (move 1 2 0) ∷ []) books)
written_all-IsConsistent_example =
    written_all-IsConsistent
      (credits (write 1 20) ∷ debits (write 1 90) ∷ transfers (move 1 2 0) ∷ []) books
      books-IsConsistent

transfer-refines_example :
    (is_ok (transfer (move 1 2 50) books).0 ≡ may_transfer 1 2 (pos 50) (balance_of books))
    × ((j : ℕ)
        → balance_of (transfer (move 1 2 50) books).1 j
          ≡ transfer_spec (move 1 2 50) (balance_of books) j)
transfer-refines_example = transfer-refines (move 1 2 50) books

debit-refines_example :
    (is_ok (debit (write 1 80) books).0 ≡ may_debit 1 (pos 80) (balance_of books))
    × ((j : ℕ)
        → balance_of (debit (write 1 80) books).1 j
          ≡ guarded
              (may_debit 1 (pos 80) (balance_of books))
              (take_from 1 (pos 80))
              (balance_of books)
              j)
debit-refines_example = debit-refines (write 1 80) books

credit-refines_example :
    (is_ok (credit (write 2 80) books).0 ≡ may_credit 2 (pos 80) (balance_of books))
    × ((j : ℕ)
        → balance_of (credit (write 2 80) books).1 j
          ≡ guarded
              (may_credit 2 (pos 80) (balance_of books))
              (add_to 2 (pos 80))
              (balance_of books)
              j)
credit-refines_example = credit-refines (write 2 80) books

transfer-total_example : total (transfer (move 1 2 50) books).1 ≡ total books
transfer-total_example = transfer-total (move 1 2 50) books

report_no_drift_iff_example :
    ((reconciliation_report (some 1) books).wallets_with_drift ≡ 0)
    ↔ All
        (λ w. w.balance ≡ computed_balance w.id books.entries.rows)
        (take (report_limit (some 1)) books.wallets.rows)
report_no_drift_iff_example = report_no_drift_iff (some 1) books

descending : Descending books.wallets.rows
descending = ground arith

verify_balance_iff_example :
    ((verify_balance 1 books).1 ≡ books)
    × (((verify_balance 1 books).0 ≡ ok tt) ↔ (
        (w : Wallet) × (find_unique 1 books.wallets.rows ≡ some w)
        × (w.balance ≡ computed_balance 1 books.entries.rows)))
verify_balance_iff_example = verify_balance_iff 1 books
