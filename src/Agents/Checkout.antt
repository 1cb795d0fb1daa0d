-- ===== src/Agents/Checkout.antt =====
-- apps/api/src/modules/agents/services/checkout.service.ts: validation of the cart's lines, the writes
-- of the SERIALIZABLE transaction, its one retry, and what follows the commit. Whether the database
-- aborts an attempt, and what other transactions commit before the retry, are arguments.
pub mod Abort
pub mod Commit
pub mod Validated
pub mod Quoted
pub mod Outcome
pub mod Returned
pub mod Ended
pub mod Once
pub mod Twice
use saziqo_platform.Prelude.{
  ℕ, suc, ◌+◌, ◌-◌, ◌*◌, ◌/◌, Bool, true, false, not, Option, none, some, List, [], ◌∷◌, ◌++◌, ◌==◌,
  if◌then◌else◌, Text, text_eq, is_some, get_or, filter, any, map, reverse, ℤ, pos, ◌-ℤ◌,
}
use saziqo_platform.Action.{
  Action, Result, ok, err, Thrown, http, ErrorCode, bad_request, conflict_status,
}
use saziqo_platform.Table.{Table, find_first, update, insert}
use saziqo_platform.Agents.{
  Market, Listing, RunPack, CartItem, Purchase, PurchaseStatus, PricingType, UserRuns, RedisKey,
  Notice, Channel, listing_key, is_published, is_live, is_owned, is_pack_of, update_listing, notify,
  low_runs_dedup_key,
}
use saziqo_platform.Agents.Cart.{is_line_of, delete_lines}
use saziqo_platform.Agents.Runs.{is_runs_of, with_user_runs}

-- `CheckoutLineSummary`
pub record CheckoutLineSummary : Type 0 where
  pub purchase_id : ℕ
  pub listing_id : ℕ
  pub listing_title_fa : Text
  pub pricing_type : PricingType
  pub amount_toman : ℕ
  pub commission_toman : ℕ
  pub maker_earned_toman : ℤ
  pub runs_granted : ℕ

-- `CheckoutValidationFailure`
pub record CheckoutValidationFailure : Type 0 where
  pub cart_item_id : ℕ
  pub listing_id : ℕ
  pub reason : ErrorCode

-- `BuiltLine`: the listing's fields that are read, and the pack.
pub record BuiltLine : Type 0 where
  pub cart_item : CartItem
  pub listing : Listing
  pub pack : Option RunPack
  pub amount_toman : ℕ
  pub commission_toman : ℕ
  pub maker_earned_toman : ℤ
  pub runs_granted : ℕ

-- `PostCommitPlan`, `CheckoutSummary` and the counters of the loop that fills them.
pub record Sold : Type 0 where
  pub purchase_ids : List ℕ
  pub total_amount_toman : ℕ
  pub lines : List CheckoutLineSummary
  pub receipts : List (Text × ℕ)
  pub sales : List (ℕ × Text)
  pub per_run_listing_ids : List ℕ

-- `DEFAULT_COMMISSION_PERCENT`
abbrev pub default_commission_percent : ℕ
default_commission_percent = 20

abbrev pub commission_of : ℕ → ℕ → ℕ
commission_of percent amount = amount * percent / 100

abbrev pub built_line : ℕ → CartItem → Listing → Option RunPack → ℕ → ℕ → BuiltLine
built_line percent item l pack amount runs = record {
  cart_item = item;
  listing = l;
  pack = pack;
  amount_toman = amount;
  commission_toman = commission_of percent amount;
  maker_earned_toman = pos amount -ℤ pos (commission_of percent amount);
  runs_granted = runs;
}

-- What the validation of a line gives: the line to sell, or the reason of a failure.
pub data Checked : Type 0 where
  passes : BuiltLine → Checked
  fails : ErrorCode → Checked

abbrev pub check_found_pack : ℕ → CartItem → Listing → Option RunPack → Checked
check_found_pack percent item l none = fails ErrorCode.invalid_run_pack
check_found_pack percent item l (some p) =
    passes (built_line percent item l (some p) p.price_toman p.runs)

abbrev pub check_pack : Market → ℕ → CartItem → Listing → Option ℕ → Checked
check_pack s percent item l none = fails ErrorCode.invalid_run_pack
check_pack s percent item l (some i) =
    check_found_pack percent item l (find_first (is_pack_of i l.id) s.run_packs.rows)

abbrev pub check_unowned : Market → ℕ → ℕ → CartItem → Listing → ℕ → Checked
check_unowned s user_id percent item l amount =
    if is_some (find_first (is_owned user_id l.id) s.purchases.rows)
    then fails ErrorCode.already_owned
    else passes (built_line percent item l none amount 0)

abbrev pub check_priced : Market → ℕ → ℕ → CartItem → Listing → PricingType → Checked
check_priced s user_id percent item l PricingType.per_run =
    check_pack s percent item l item.run_pack_id
check_priced s user_id percent item l PricingType.one_time =
    check_unowned s user_id percent item l (get_or l.one_time_price_toman 0)
check_priced s user_id percent item l PricingType.free = check_unowned s user_id percent item l 0

abbrev pub check_listing : Market → ℕ → ℕ → CartItem → Option Listing → Checked
check_listing s user_id percent item none = fails ErrorCode.listing_not_purchasable
check_listing s user_id percent item (some l) =
    if is_published l.status
    then check_priced s user_id percent item l l.pricing_type
    else fails ErrorCode.listing_not_purchasable

-- One round of the validation loop.
unfoldable pub check_line : Market → ℕ → ℕ → CartItem → Checked
check_line s user_id percent item =
    check_listing s user_id percent item (find_first (is_live item.listing_id) s.listings.rows)

abbrev pub add_checked :
    CartItem
    → Checked
    → List BuiltLine × List CheckoutValidationFailure
    → List BuiltLine × List CheckoutValidationFailure
add_checked item (passes line) r = (line ∷ r.0, r.1)
add_checked item (fails reason) r =
    (r.0, record { cart_item_id = item.id; listing_id = item.listing_id; reason = reason } ∷ r.1)

-- The validation loop, which reads only: `built` and `failures`, in the order of the cart.
unfoldable pub check_lines :
    Market → ℕ → ℕ → List CartItem → List BuiltLine × List CheckoutValidationFailure
check_lines s user_id percent [] = ([], [])
check_lines s user_id percent (item ∷ items) =
    add_checked item (check_line s user_id percent item) (check_lines s user_id percent items)

abbrev pub new_purchase : ℕ → BuiltLine → ℕ → Purchase
new_purchase user_id line i = record {
  id = i;
  user_id = user_id;
  listing_id = line.listing.id;
  pricing_type_at_sale = line.listing.pricing_type;
  run_pack_id = elim line.pack [ none ↦ none | some p ↦ some p.id ];
  runs_granted = line.runs_granted;
  amount_toman = line.amount_toman;
  commission_toman = line.commission_toman;
  maker_earned_toman = line.maker_earned_toman;
  system_payment_id = none;
  status = PurchaseStatus.completed;
}

abbrev pub new_user_runs : ℕ → ℕ → ℕ → ℕ → UserRuns
new_user_runs user_id listing_id runs i = record {
  id = i;
  user_id = user_id;
  listing_id = listing_id;
  remaining_runs = runs;
  total_granted = runs;
  total_consumed = 0;
  last_consumed_at = none;
}

abbrev pub granted : ℕ → UserRuns → UserRuns
granted runs r = record r {
  remaining_runs = r.remaining_runs + runs;
  total_granted = r.total_granted + runs;
}

-- `update` of the row with a unique key.
abbrev pub update_first : (UserRuns → Bool) → (UserRuns → UserRuns) → List UserRuns → List UserRuns
update_first p f [] = []
update_first p f (r ∷ rs) = if p r then f r ∷ rs else r ∷ update_first p f rs

-- `agents_user_runs.upsert`
unfoldable pub grant_runs : ℕ → ℕ → ℕ → Market → Market
grant_runs user_id listing_id runs s =
    if is_some (find_first (is_runs_of user_id listing_id) s.user_runs.rows)
    then with_user_runs (update_first (is_runs_of user_id listing_id) (granted runs)) s
    else record s { user_runs = insert (new_user_runs user_id listing_id runs) s.user_runs }

-- The pack whose runs are granted.
abbrev pub granted_pack : PricingType → Option RunPack → Option RunPack
granted_pack PricingType.per_run pack = pack
granted_pack PricingType.one_time _ = none
granted_pack PricingType.free _ = none

abbrev pub grant_pack : ℕ → ℕ → Option RunPack → Market → Market
grant_pack user_id listing_id none s = s
grant_pack user_id listing_id (some p) s = grant_runs user_id listing_id p.runs s

abbrev pub one_more_user : Listing → Listing
one_more_user l = record l { total_users = suc l.total_users }

abbrev pub count_user : Bool → ℕ → Market → Market
count_user true listing_id s = s
count_user false listing_id s = update_listing listing_id one_more_user s

abbrev pub with_purchase : ℕ → BuiltLine → Market → Market
with_purchase user_id line s = record s {
  purchases = insert (new_purchase user_id line) s.purchases;
}

-- The writes of one round of the selling loop: the earlier purchase is looked up first.
unfoldable pub sell_line : ℕ → BuiltLine → Market → Market
unfolding grant_runs
sell_line user_id line s =
    count_user (is_some (find_first (is_owned user_id line.listing.id) s.purchases.rows))
      line.listing.id
      (grant_pack user_id line.listing.id (granted_pack line.listing.pricing_type line.pack)
        (with_purchase user_id line s))
