-- ===== src/Agents/Sales.antt =====
-- The checkout of apps/api/src/modules/agents/services/checkout.service.ts, as steps.
use saziqo_platform.Prelude.{
  ℕ, ◌≡◌, refl, sym, ◌∙◌, subst, Bool, true, false, Option, none, some, List, [], ◌∷◌, Text, inl,
  inr, arith, Option-cases, is_some, All, All-map,
}
use saziqo_platform.Action.{Result, ok, err}
use saziqo_platform.Table.{find_unique, find_first, find_unique-update}
use saziqo_platform.Agents.{
  Market, RunPack, CartItem, Notice, Channel, listing_key, is_owned, update_listing, notify,
}
use saziqo_platform.Agents.Cart.{is_line_of, delete_lines}
use saziqo_platform.Agents.Runs.{is_runs_of}
use saziqo_platform.Agents.Checkout.{
  BuiltLine, Sold, CheckoutValidationFailure, check_lines, sell_line, grant_runs, grant_pack,
  granted_pack, one_more_user, count_user, with_purchase,
}
use saziqo_platform.Agents.Checkout.Commit.{
  add_sold, sell_lines, nothing_sold, sell_checked, cart_rows, percent_of, sell_cart,
  run_checkout_transaction, Attempt, commits, run_with_serialization_retry, notify_receipts,
  notify_sales, dispatch_post_commit, clear_low_runs_dedup, committed, checkout,
}
use saziqo_platform.Agents.Checkout.Validated.{check_lines-IsSellable}
use saziqo_platform.Agents.Steps.{
  Same, IsSellable, is_there, Step, Steps, done, more, single, joined,
}

pub Same-refl : (s : Market) → Same s s
Same-refl s = (refl, refl, refl, refl, refl, refl)

grant_runs_listings :
    (user_id i runs : ℕ) (s : Market) → (grant_runs user_id i runs s).listings ≡ s.listings
unfolding grant_runs
grant_runs_listings user_id i runs s =
    ground (arith, is_some (find_first (is_runs_of user_id i) s.user_runs.rows))

pub grant_pack_listings :
    (user_id i : ℕ) (o : Option RunPack) (s : Market)
    → (grant_pack user_id i o s).listings ≡ s.listings
grant_pack_listings user_id i none s = refl
grant_pack_listings user_id i (some p) s = grant_runs_listings user_id i p.runs s

is_there-update :
    (i j : ℕ) (s : Market)
    → is_there i s ≡ true
    → is_there i (update_listing j one_more_user s) ≡ true
is_there-update i j s there = elim (Option-cases (find_unique i s.listings.rows)) [
  | inl e ↦ absurd (ground (arith, e, there))
  | inr (l, e) ↦ ground (arith, e, find_unique-update i j one_more_user s.listings.rows (λ l. refl))
]

count_user-is_there :
    (b : Bool) (i j : ℕ) (s : Market) → is_there i s ≡ true → is_there i (count_user b j s) ≡ true
count_user-is_there true i j s there = there
count_user-is_there false i j s there = is_there-update i j s there

-- A sale keeps every listing.
sell_line-is_there :
    (user_id : ℕ) (line : BuiltLine) (s : Market) (i : ℕ)
    → is_there i s ≡ true
    → is_there i (sell_line user_id line s) ≡ true
unfolding sell_line
sell_line-is_there user_id line s i there =
    let t = with_purchase user_id line s in
    let pack = granted_pack line.listing.pricing_type line.pack in
    let known = is_some (find_first (is_owned user_id line.listing.id) s.purchases.rows) in
    count_user-is_there known i line.listing.id (grant_pack user_id line.listing.id pack t) (
      subst (λ x. is_some (find_unique i x.rows) ≡ true)
        (sym (grant_pack_listings user_id line.listing.id pack t)) there)

sell_line-IsSellable :
    (user_id : ℕ) (line : BuiltLine) (s : Market) (other : BuiltLine)
    → IsSellable s other
    → IsSellable (sell_line user_id line s) other
sell_line-IsSellable user_id line s other (there, same, money) =
    (sell_line-is_there user_id line s other.listing.id there, same, money)

pub sell_lines-Steps :
    (user_id : ℕ) (built : List BuiltLine) (a : Sold) (s : Market)
    → All (IsSellable s) built
    → Steps s (sell_lines user_id built a s).1
unfolding sell_lines
sell_lines-Steps user_id [] a s h = done s
sell_lines-Steps user_id (line ∷ rest) a s h =
    let t = sell_line user_id line s in
    more s t (sell_lines user_id rest (add_sold line s.purchases.next a) t).1
      (Step.sells t user_id line h.0 (Same-refl t))
      (sell_lines-Steps user_id rest (add_sold line s.purchases.next a) t
        (All-map (λ other. sell_line-IsSellable user_id line s other) rest h.1))

notify_receipts-Same :
    (user_id : ℕ) (rs : List (Text × ℕ)) (s : Market) → Same s (notify_receipts user_id rs s)
notify_receipts-Same user_id [] s = Same-refl s
notify_receipts-Same user_id (r ∷ rs) s =
    notify_receipts-Same user_id rs
      (notify user_id (Notice.purchase_receipt r.0 r.1) Channel.in_app s)

notify_sales-Same : (rs : List (ℕ × Text)) (s : Market) → Same s (notify_sales rs s)
notify_sales-Same [] s = Same-refl s
notify_sales-Same (r ∷ rs) s =
    notify_sales-Same rs (notify r.0 (Notice.new_sale r.1) Channel.in_app s)

committed-Same : (user_id : ℕ) (r : Result Sold × Market) → Same r.1 (committed user_id r).1
unfolding dispatch_post_commit clear_low_runs_dedup
committed-Same user_id (err e, s) = Same-refl s
committed-Same user_id (ok a, s) =
    let p = notify_receipts-Same user_id a.receipts s in
    let q = notify_sales-Same a.sales (notify_receipts user_id a.receipts s) in
    (p.0 ∙ q.0, p.1 ∙ q.1, p.2 ∙ q.2, p.3 ∙ q.3, p.4 ∙ q.4, p.5 ∙ q.5)

sell_checked-Steps :
    (user_id : ℕ) (built : List BuiltLine) (failures : List CheckoutValidationFailure) (s : Market)
    → All (IsSellable s) built
    → Steps s (sell_checked user_id built failures s).1
sell_checked-Steps user_id built (_ ∷ _) s h = done s
sell_checked-Steps user_id built [] s h =
    let t = (sell_lines user_id built nothing_sold s).1 in
    joined (sell_lines-Steps user_id built nothing_sold s h)
      (single (Step.aside (delete_lines (is_line_of user_id) t) (Same-refl t)))

sell_cart-Steps :
    (user_id : ℕ) (items : List CartItem) (s : Market) → Steps s (sell_cart user_id items s).1
sell_cart-Steps user_id [] s = done s
sell_cart-Steps user_id (item ∷ items) s =
    let r = check_lines s user_id (percent_of s) (item ∷ items) in
    sell_checked-Steps user_id r.0 r.1 s
      (check_lines-IsSellable s user_id (percent_of s) (item ∷ items))

abbrev kept_or_back : Market → Result Sold × Market → Result Sold × Market
kept_or_back s (ok a, t) = (ok a, t)
kept_or_back s (err e, t) = (err e, s)

kept_or_back-Steps :
    (s : Market) (r : Result Sold × Market) → Steps s r.1 → Steps s (kept_or_back s r).1
kept_or_back-Steps s (ok a, t) h = h
kept_or_back-Steps s (err e, t) h = done s

transaction_eq :
    (s : Market) (r : Result Sold × Market)
    → (elim r.0 as (λ _. Result Sold × Market) [ ok a ↦ (ok a, r.1) | err e ↦ (err e, s) ])
      ≡ kept_or_back s r
transaction_eq s (ok a, t) = refl
transaction_eq s (err e, t) = refl

pub transaction-Steps : (user_id : ℕ) (s : Market) → Steps s (run_checkout_transaction user_id s).1
unfolding run_checkout_transaction
transaction-Steps user_id s =
    let r = sell_cart user_id (cart_rows user_id s) s in
    subst (λ (x : Result Sold × Market). Steps s x.1) (sym (transaction_eq s r))
      (kept_or_back-Steps s r (sell_cart-Steps user_id (cart_rows user_id s) s))

pub checkout-Steps :
    (user_id : ℕ) (again : Attempt) (meanwhile : Market → Market) (s : Market)
    → Steps s (checkout user_id commits again meanwhile s).1
unfolding checkout run_with_serialization_retry
checkout-Steps user_id again meanwhile s =
    let r = run_checkout_transaction user_id s in
    joined (transaction-Steps user_id s)
      (single (Step.aside (committed user_id r).1 (committed-Same user_id r)))
