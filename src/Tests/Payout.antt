-- ===== src/Tests/Payout.antt =====
-- The theorems on apps/api/src/core/payouts/payouts.service.ts at concrete inputs.
use saziqo_platform.Prelude.{◌≡◌, refl, some, List, [], ◌∷◌, pos, ◌+ℤ◌, arith, codes}
use saziqo_platform.Action.{ok}
use saziqo_platform.Table.{find_unique}
use saziqo_platform.Store.{PayoutRequest, PayoutStatus, wallet_key, payout_key}
use saziqo_platform.Ledger.Conservation.{balance_of, total}
use saziqo_platform.Payouts.{cancel_check}
use saziqo_platform.Payouts.Money.{held, Conserves}
use saziqo_platform.Payouts.Sequences.{
  Call, requests, approves, rejects, marks_paid, cancels, after_all, after_all-Conserves,
}
use saziqo_platform.Payouts.Lifecycle.{◌⟶*◌, after_all-⟶*}
use saziqo_platform.Payouts.Race.{commit, cancel_race}
use saziqo_platform.Tests.Books.{books, books-IsSound, payout, wallet_1}

abbrev calls : List Call
calls =
    approves 1 9 5
    ∷ cancels 1 1
    ∷ requests (record {
      user_id = 1;
      amount = pos 40;
      bank_account = codes "IR380570028780010872190001";
      account_holder = codes "holder";
    })
    ∷ rejects 3 9 (codes "reason") 6
    ∷ marks_paid 1 9 (codes "tracking") 7
    ∷ []

after_all-Conserves_example : Conserves books (after_all calls books)
after_all-Conserves_example = after_all-Conserves calls books books-IsSound

after_all-⟶*_example :
    (r : PayoutRequest) × (find_unique 1 (after_all calls books).payouts.rows ≡ some r)
    × (PayoutStatus.pending ⟶* r.status)
after_all-⟶*_example = after_all-⟶* calls books 1 (payout 1 PayoutStatus.pending) (omega arith) refl

checked : cancel_check 1 1 books ≡ (ok (payout 1 PayoutStatus.pending), books)
unfolding cancel_check
checked = refl

cancel_race_example :
    let p = payout 1 PayoutStatus.pending in
    let t = commit p (commit p books) in
    (balance_of t 1 ≡ some (pos 70 +ℤ pos 30 +ℤ pos 30))
    × (total t +ℤ held t ≡ total books +ℤ held books +ℤ pos 30)
cancel_race_example = cancel_race 1 1 (payout 1 PayoutStatus.pending) wallet_1 books checked refl
