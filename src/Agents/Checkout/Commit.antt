-- ===== src/Agents/Checkout/Commit.antt =====
-- The transaction of apps/api/src/modules/agents/services/checkout.service.ts, its retry, and what
-- follows the commit.
use saziqo_platform.Prelude.{
  ℕ, ◌+◌, Bool, not, Option, none, some, List, [], ◌∷◌, ◌++◌, Text, text_eq, get_or, filter, any,
  map, reverse, if◌then◌else◌,
}
use saziqo_platform.Action.{
  Action, Result, ok, err, Thrown, http, plain, ErrorCode, bad_request, conflict_status,
  transaction,
}
use saziqo_platform.Agents.{
  Market, RunPack, CartItem, RedisKey, Notice, Channel, notify, low_runs_dedup_key,
}
use saziqo_platform.Agents.Cart.{is_line_of, delete_lines}
use saziqo_platform.Agents.Checkout.Abort.{DbError, is_serialization_failure}
use saziqo_platform.Agents.Checkout.{
  BuiltLine, Sold, CheckoutLineSummary, CheckoutValidationFailure, granted_pack, sell_line,
  check_lines, default_commission_percent,
}

abbrev pub line_summary : BuiltLine → ℕ → CheckoutLineSummary
line_summary line i = record {
  purchase_id = i;
  listing_id = line.listing.id;
  listing_title_fa = line.listing.title_fa;
  pricing_type = line.listing.pricing_type;
  amount_toman = line.amount_toman;
  commission_toman = line.commission_toman;
  maker_earned_toman = line.maker_earned_toman;
  runs_granted = line.runs_granted;
}

abbrev pub granted_ids : ℕ → Option RunPack → List ℕ
granted_ids i none = []
granted_ids i (some _) = i ∷ []

-- What a round adds to the results: `i` is the id of its purchase.
abbrev pub add_sold : BuiltLine → ℕ → Sold → Sold
add_sold line i a = record {
  purchase_ids = a.purchase_ids ++ (i ∷ []);
  total_amount_toman = a.total_amount_toman + line.amount_toman;
  lines = a.lines ++ (line_summary line i ∷ []);
  receipts = a.receipts ++ ((line.listing.title_fa, line.runs_granted) ∷ []);
  sales = a.sales ++ ((line.listing.maker_user_id, line.listing.title_fa) ∷ []);
  per_run_listing_ids =
      a.per_run_listing_ids
      ++ granted_ids line.listing.id (granted_pack line.listing.pricing_type line.pack);
}

-- The selling loop.
unfoldable pub sell_lines : ℕ → List BuiltLine → Sold → Market → Sold × Market
sell_lines user_id [] a s = (a, s)
sell_lines user_id (line ∷ rest) a s =
    sell_lines user_id rest (add_sold line s.purchases.next a) (sell_line user_id line s)

abbrev pub nothing_sold : Sold
nothing_sold = record {
  purchase_ids = [];
  total_amount_toman = 0;
  lines = [];
  receipts = [];
  sales = [];
  per_run_listing_ids = [];
}

abbrev pub empty_cart : Thrown
empty_cart = http ErrorCode.empty_cart bad_request

abbrev pub validation_failed : Thrown
validation_failed = http ErrorCode.checkout_validation_failed conflict_status

-- The writes, if no line failed.
abbrev pub sell_checked : ℕ → List BuiltLine → List CheckoutValidationFailure → Action Market Sold
sell_checked user_id built (_ ∷ _) s = (err validation_failed, s)
sell_checked user_id built [] s =
    let (a, t) = sell_lines user_id built nothing_sold s in
    (ok a, delete_lines (is_line_of user_id) t)

-- The rows of the cart, oldest first.
abbrev pub cart_rows : ℕ → Market → List CartItem
cart_rows user_id s = reverse (filter (is_line_of user_id) s.cart_items.rows)

-- `settings?.commissionPercent ?? DEFAULT_COMMISSION_PERCENT`
abbrev pub percent_of : Market → ℕ
percent_of s = get_or s.commission_percent default_commission_percent

abbrev pub sell_cart : ℕ → List CartItem → Action Market Sold
sell_cart user_id [] s = (err empty_cart, s)
sell_cart user_id (item ∷ items) s =
    let r = check_lines s user_id (percent_of s) (item ∷ items) in sell_checked user_id r.0 r.1 s

-- `runCheckoutTransaction`
unfoldable pub run_checkout_transaction : ℕ → Action Market Sold
run_checkout_transaction user_id s = transaction (sell_cart user_id (cart_rows user_id s)) s

-- How the database ends an attempt: it commits what it can, or aborts it.
pub data Attempt : Type 0 where
  commits : Attempt
  aborts : DbError → Attempt

abbrev pub aborted : DbError → Thrown
aborted e = plain e.message

abbrev pub attempted : ℕ → Attempt → Action Market Sold
attempted user_id commits s = run_checkout_transaction user_id s
attempted user_id (aborts e) s = (err (aborted e), s)

-- `runWithSerializationRetry`: `meanwhile` is what others commit before the retry.
unfoldable pub run_with_serialization_retry :
    ℕ → Attempt → Attempt → (Market → Market) → Action Market Sold
run_with_serialization_retry user_id commits again meanwhile s = run_checkout_transaction user_id s
run_with_serialization_retry user_id (aborts e) again meanwhile s =
    if is_serialization_failure e
    then attempted user_id again (meanwhile s)
    else (err (aborted e), s)

-- `dispatchPostCommit`
abbrev pub notify_receipts : ℕ → List (Text × ℕ) → Market → Market
notify_receipts user_id [] s = s
notify_receipts user_id (r ∷ rs) s =
    notify_receipts user_id rs (notify user_id (Notice.purchase_receipt r.0 r.1) Channel.in_app s)

abbrev pub notify_sales : List (ℕ × Text) → Market → Market
notify_sales [] s = s
notify_sales (r ∷ rs) s = notify_sales rs (notify r.0 (Notice.new_sale r.1) Channel.in_app s)

unfoldable pub dispatch_post_commit : ℕ → Sold → Market → Market
dispatch_post_commit user_id a s = notify_sales a.sales (notify_receipts user_id a.receipts s)

-- `clearLowRunsDedup`
abbrev pub is_key_of : ℕ → List ℕ → RedisKey → Bool
is_key_of user_id listing_ids k = any (text_eq k.key) (map (low_runs_dedup_key user_id) listing_ids)

unfoldable pub clear_low_runs_dedup : ℕ → List ℕ → Market → Market
clear_low_runs_dedup user_id listing_ids s = record s {
  low_runs_keys = filter (λ k. not (is_key_of user_id listing_ids k)) s.low_runs_keys;
}

abbrev pub committed : ℕ → Result Sold × Market → Result Sold × Market
committed user_id (err e, s) = (err e, s)
committed user_id (ok a, s) =
    (ok a, clear_low_runs_dedup user_id a.per_run_listing_ids (dispatch_post_commit user_id a s))

-- `checkout`; the summary's part of the result is what the user is sent.
unfoldable pub checkout : ℕ → Attempt → Attempt → (Market → Market) → Action Market Sold
checkout user_id first again meanwhile s =
    committed user_id (run_with_serialization_retry user_id first again meanwhile s)
