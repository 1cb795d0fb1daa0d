-- ===== src/Tests/Pages.antt =====
-- The theorem on cursor pagination at a concrete table.
use saziqo_platform.Prelude.{suc, ◌≡◌, none, length, filter, ◌==◌, arith}
use saziqo_platform.Table.{Descending}
use saziqo_platform.Store.{PayoutRequest, payout_key}
use saziqo_platform.Page.Walk.{walk, walk-filter}
use saziqo_platform.Tests.Books.{books}

falling : Descending books.payouts.rows
falling = ground arith

walk-filter_example :
    walk
      (suc (length books.payouts.rows))
      (λ (p : PayoutRequest). p.user_id == 1)
      1
      books.payouts.rows
      none
    ≡ filter (λ (p : PayoutRequest). p.user_id == 1) books.payouts.rows
walk-filter_example =
    walk-filter (λ (p : PayoutRequest). p.user_id == 1) 1 books.payouts.rows (omega arith) falling
