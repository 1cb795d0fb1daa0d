-- ===== src/Agents/Checkout/Returned.antt =====
-- Every outcome of an attempt at `checkout` of apps/api/src/modules/agents/services/checkout.service.ts
-- that the database commits.
use saziqo_platform.Prelude.{
  ℕ, ◌≡◌, ◌≢◌, refl, sym, ap, ◌∙◌, subst, not, List, [], ◌∷◌, ◌++◌, Text, ◌⊎◌, inl, inr, arith,
  filter, reverse,
}
use saziqo_platform.Action.{Action, Result, ok, err, Thrown, transaction}
use saziqo_platform.Agents.{Market, CartItem, Purchase, Notice, Channel, notify}
use saziqo_platform.Agents.Cart.{is_line_of, delete_lines}
use saziqo_platform.Agents.Checkout.{Sold, CheckoutValidationFailure, check_lines}
use saziqo_platform.Agents.Checkout.Commit.{
  sell_lines, nothing_sold, sell_checked, cart_rows, percent_of, sell_cart, empty_cart,
  validation_failed, run_checkout_transaction, commits, run_with_serialization_retry,
  notify_receipts, notify_sales, dispatch_post_commit, clear_low_runs_dedup, committed, checkout,
}
use saziqo_platform.Agents.Checkout.Validated.{check_lines-IsSellable}
use saziqo_platform.Agents.Checkout.Quoted.{Matched, check_lines-IsQuoted}
use saziqo_platform.Agents.Checkout.Outcome.{
  in_order, bought-reverse, paid, paid-in_order, IsCharged, in_order-IsCharged, sell_lines_lem,
}

-- The lines that can no longer be bought.
abbrev pub failures_of : ℕ → Market → List CheckoutValidationFailure
failures_of user_id s = (check_lines s user_id (percent_of s) (cart_rows user_id s)).1

-- New purchases, oldest first, one for each line of the cart in the order of the cart; the sum of their
-- amounts; and no line left.
abbrev pub Returned : ℕ → Market → Sold → Market → Type 0
Returned user_id s a t =
    (new : List Purchase) × (t.purchases.rows ≡ reverse new ++ s.purchases.rows)
    × Matched (IsCharged s user_id (percent_of s)) (cart_rows user_id s) new
    × (a.total_amount_toman ≡ paid new)
    × (t.cart_items.rows ≡ filter (λ c. not (is_line_of user_id c)) s.cart_items.rows)

-- The cart and the purchases are what the commit made them.
abbrev Kept : Market → Market → Type 0
Kept s t = (t.purchases ≡ s.purchases) × (t.cart_items ≡ s.cart_items)

notify_receipts-Kept :
    (user_id : ℕ) (rs : List (Text × ℕ)) (s : Market) → Kept s (notify_receipts user_id rs s)
notify_receipts-Kept user_id [] s = (refl, refl)
notify_receipts-Kept user_id (r ∷ rs) s =
    notify_receipts-Kept user_id rs
      (notify user_id (Notice.purchase_receipt r.0 r.1) Channel.in_app s)

notify_sales-Kept : (rs : List (ℕ × Text)) (s : Market) → Kept s (notify_sales rs s)
notify_sales-Kept [] s = (refl, refl)
notify_sales-Kept (r ∷ rs) s =
    notify_sales-Kept rs (notify r.0 (Notice.new_sale r.1) Channel.in_app s)

pub after_commit-Kept :
    (user_id : ℕ) (a : Sold) (s : Market) → Kept s (committed user_id (ok a, s)).1
unfolding dispatch_post_commit clear_low_runs_dedup
after_commit-Kept user_id a s =
    let p = notify_receipts-Kept user_id a.receipts s in
    let q = notify_sales-Kept a.sales (notify_receipts user_id a.receipts s) in
    (q.0 ∙ p.0, q.1 ∙ p.1)

sold_Returned :
    (user_id : ℕ) (s : Market)
    → failures_of user_id s ≡ []
    → let built = (check_lines s user_id (percent_of s) (cart_rows user_id s)).0 in
      let r = sell_lines user_id built nothing_sold s in
      Returned user_id s r.0 (committed user_id (ok r.0, delete_lines (is_line_of user_id) r.1)).1
sold_Returned user_id s clean =
    let items = cart_rows user_id s in
    let built = (check_lines s user_id (percent_of s) items).0 in
    let r = sell_lines user_id built nothing_sold s in
    let (e, c, total) = sell_lines_lem user_id built nothing_sold s in
    let (p, q) = after_commit-Kept user_id r.0 (delete_lines (is_line_of user_id) r.1) in
    let n = s.purchases.next in
    (
      in_order user_id built n,
      ap (λ x. x.rows) p ∙ e ∙ ap (λ ps. ps ++ s.purchases.rows) (bought-reverse user_id built n),
      in_order-IsCharged s user_id (percent_of s) items built n
          (check_lines-IsSellable s user_id (percent_of s) items)
          (check_lines-IsQuoted s user_id (percent_of s) items clean),
      omega (arith, total, paid-in_order user_id built n),
      ap (λ x. x.rows) q ∙ ap (λ x. filter (λ c. not (is_line_of user_id c)) x.rows) c,
    )

-- A checkout whose attempt the database commits.
abbrev pub checked_out : ℕ → Market → Result Sold × Market
checked_out user_id s = checkout user_id commits commits (λ t. t) s

abbrev pub Outcome : ℕ → Market → Result Sold × Market → Type 0
Outcome user_id s r =
    ((cart_rows user_id s ≡ []) × (r ≡ (err empty_cart, s)))
    ⊎ (((failures_of user_id s ≢ []) × (r ≡ (err validation_failed, s)))
        ⊎ ((cart_rows user_id s ≢ [])
            × (failures_of user_id s ≡ [])
            × ((a : Sold) × (r.0 ≡ ok a) × Returned user_id s a r.1)))

pub sell_cart_lem :
    (user_id : ℕ) (rows : List CartItem) (item : CartItem) (items : List CartItem) (s : Market)
    → rows ≡ item ∷ items
    → sell_cart user_id rows s
      ≡ (let r = check_lines s user_id (percent_of s) rows in sell_checked user_id r.0 r.1 s)
sell_cart_lem user_id rows item items s e =
    subst
      (λ rows.
        sell_cart user_id rows s
        ≡ (let r = check_lines s user_id (percent_of s) rows in sell_checked user_id r.0 r.1 s))
      (sym e) refl

transaction_ok :
    (m : Action Market Sold) (s t : Market) (a : Sold)
    → m s ≡ (ok a, t)
    → transaction m s ≡ (ok a, t)
transaction_ok m s t a e = rw (ap (λ x. x.0) e, transaction) (ap (λ x. (ok a, x.1)) e)

transaction_err :
    (m : Action Market Sold) (s t : Market) (x : Thrown)
    → m s ≡ (err x, t)
    → transaction m s ≡ (err x, s)
transaction_err m s t x e = rw (e, transaction) refl

throws :
    (user_id : ℕ) (s : Market) (x : Thrown)
    → sell_cart user_id (cart_rows user_id s) s ≡ (err x, s)
    → checked_out user_id s ≡ (err x, s)
unfolding checkout run_with_serialization_retry run_checkout_transaction
throws user_id s x e =
    ap (committed user_id) (transaction_err (sell_cart user_id (cart_rows user_id s)) s s x e)

pub returns :
    (user_id : ℕ) (s t : Market) (a : Sold)
    → sell_cart user_id (cart_rows user_id s) s ≡ (ok a, t)
    → checked_out user_id s ≡ committed user_id (ok a, t)
unfolding checkout run_with_serialization_retry run_checkout_transaction
returns user_id s t a e =
    ap (committed user_id) (transaction_ok (sell_cart user_id (cart_rows user_id s)) s t a e)

-- A cart whose lines can all be bought.
sells :
    (user_id : ℕ) (s : Market) (item : CartItem) (items : List CartItem)
    → cart_rows user_id s ≡ item ∷ items
    → failures_of user_id s ≡ []
    → (a : Sold) × ((checked_out user_id s).0 ≡ ok a)
      × Returned user_id s a (checked_out user_id s).1
sells user_id s item items e clean =
    let built = (check_lines s user_id (percent_of s) (cart_rows user_id s)).0 in
    let r = sell_lines user_id built nothing_sold s in
    let t = delete_lines (is_line_of user_id) r.1 in
    let done = returns user_id s t r.0 (
      sell_cart_lem user_id (cart_rows user_id s) item items s e
      ∙ ap (λ fs. sell_checked user_id built fs s) clean) in
    (
      r.0,
      ap (λ x. x.0) done,
      subst (λ (x : Result Sold × Market). Returned user_id s r.0 x.1) (sym done)
          (sold_Returned user_id s clean),
    )

refuses :
    (user_id : ℕ) (s : Market) (item : CartItem) (items : List CartItem)
    (f : CheckoutValidationFailure) (fs : List CheckoutValidationFailure)
    → cart_rows user_id s ≡ item ∷ items
    → failures_of user_id s ≡ f ∷ fs
    → checked_out user_id s ≡ (err validation_failed, s)
refuses user_id s item items f fs e bad =
    let built = (check_lines s user_id (percent_of s) (cart_rows user_id s)).0 in
    throws user_id s validation_failed (
      sell_cart_lem user_id (cart_rows user_id s) item items s e
      ∙ ap (λ fs. sell_checked user_id built fs s) bad)

-- Every outcome of an attempt that is committed.
pub checked_out_outcome : (user_id : ℕ) (s : Market) → Outcome user_id s (checked_out user_id s)
checked_out_outcome user_id s =
    elim (cart_rows user_id s)
        as (λ rows. cart_rows user_id s ≡ rows → Outcome user_id s (checked_out user_id s)) [
          | [] ↦ λ e. inl (e, throws user_id s empty_cart (ap (λ rows. sell_cart user_id rows s) e))
          | item ∷ items ↦ λ e.
              elim (failures_of user_id s)
                  as (λ fs.
                    failures_of user_id s ≡ fs → Outcome user_id s (checked_out user_id s)) [
                      | f ∷ fs ↦ λ bad. inr (inl (λ g. cc, refuses user_id s item items f fs e bad))
                      | [] ↦ λ clean. inr (inr (λ g. cc, clean, sells user_id s item items e clean))
                    ]
                refl
        ]
      refl
