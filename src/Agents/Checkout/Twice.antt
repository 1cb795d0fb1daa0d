-- ===== src/Agents/Checkout/Twice.antt =====
-- Two additions of one listing to a cart in apps/api/src/modules/agents/services/cart.service.ts whose
-- look-ups both precede the first insertion, and the checkout of checkout.service.ts behind them.
use saziqo_platform.Prelude.{
  ℕ, suc, ◌+◌, ◌≡◌, refl, sym, ap, ◌∙◌, subst, true, false, none, some, List, [], ◌∷◌, ==_refl,
  arith, filter, any,
}
use saziqo_platform.Action.{Result, ok}
use saziqo_platform.Table.{find_first, insert}
use saziqo_platform.Agents.{
  Market, Listing, CartItem, PricingType, Purchase, is_live, is_owned, is_published,
}
use saziqo_platform.Agents.Cart.{is_line_of, delete_lines, new_line, violates_unique, create_line}
use saziqo_platform.Agents.Checkout.{
  BuiltLine, Sold, passes, built_line, check_line, check_lines, new_purchase,
}
use saziqo_platform.Agents.Checkout.Commit.{
  sell_lines, nothing_sold, sell_checked, cart_rows, percent_of, sell_cart,
}
use saziqo_platform.Agents.Checkout.Outcome.{sell_lines_lem}
use saziqo_platform.Agents.Checkout.Returned.{
  checked_out, returns, sell_cart_lem, after_commit-Kept,
}

-- The two insertions, after which each call has its line.
abbrev pub added_twice : ℕ → ℕ → Market → Market
added_twice user_id i s = (create_line user_id i none (create_line user_id i none s).1).1

abbrev with_line : ℕ → ℕ → Market → Market
with_line user_id i s = record s { cart_items = insert (new_line user_id i none) s.cart_items }

-- The unique constraint does not see a null.
no_violation :
    (user_id i : ℕ) (rows : List CartItem) → any (violates_unique user_id i none) rows ≡ false
no_violation user_id i [] = refl
no_violation user_id i (c ∷ rows) = no_violation user_id i rows

create_unpacked :
    (user_id i : ℕ) (s : Market)
    → create_line user_id i none s
      ≡ (ok (new_line user_id i none s.cart_items.next), with_line user_id i s)
unfolding create_line
create_unpacked user_id i s = rw (no_violation user_id i s.cart_items.rows) refl

added_twice_lem :
    (user_id i : ℕ) (s : Market)
    → added_twice user_id i s ≡ with_line user_id i (with_line user_id i s)
added_twice_lem user_id i s =
    ap (λ (x : Result CartItem × Market). (create_line user_id i none x.1).1)
      (create_unpacked user_id i s)
    ∙ ap (λ (x : Result CartItem × Market). x.1) (create_unpacked user_id i (with_line user_id i s))

-- A listing that the user may buy for this price.
abbrev pub IsOffered : ℕ → Listing → ℕ → Market → Type 0
IsOffered user_id l price s =
    (find_first (is_live l.id) s.listings.rows ≡ some l)
    × (is_published l.status ≡ true)
    × (l.pricing_type ≡ PricingType.one_time)
    × (l.one_time_price_toman ≡ some price)
    × (find_first (is_owned user_id l.id) s.purchases.rows ≡ none)

offered_line :
    (user_id price percent : ℕ) (l : Listing) (item : CartItem) (s : Market)
    → IsOffered user_id l price s
    → item.listing_id ≡ l.id
    → check_line s user_id percent item ≡ passes (built_line percent item l none price 0)
unfolding check_line
offered_line user_id price percent l item s (live, shown, kind, cost, new) same =
    ground (arith, live, shown, kind, cost, new, same)

abbrev built_twice : ℕ → Listing → ℕ → Market → List BuiltLine
built_twice user_id l price s =
    let n = s.cart_items.next in
    built_line (percent_of s) (new_line user_id l.id none n) l none price 0
    ∷ built_line (percent_of s) (new_line user_id l.id none (suc n)) l none price 0
    ∷ []

cart_twice :
    (user_id i : ℕ) (s : Market)
    → filter (is_line_of user_id) s.cart_items.rows ≡ []
    → cart_rows user_id (with_line user_id i (with_line user_id i s))
      ≡ new_line user_id i none s.cart_items.next
        ∷ new_line user_id i none (suc s.cart_items.next)
        ∷ []
cart_twice user_id i s empty = rw (==_refl user_id, empty) refl

checked_twice :
    (user_id price : ℕ) (l : Listing) (s : Market)
    → IsOffered user_id l price s
    → let n = s.cart_items.next in
      check_lines
        (with_line user_id l.id (with_line user_id l.id s))
        user_id
        (percent_of s)
        (new_line user_id l.id none n ∷ new_line user_id l.id none (suc n) ∷ [])
      ≡ (built_twice user_id l price s, [])
unfolding check_lines
checked_twice user_id price l s offered =
    let t = with_line user_id l.id (with_line user_id l.id s) in
    let n = s.cart_items.next in
    let first =
      offered_line user_id price (percent_of s) l (new_line user_id l.id none n) t offered refl in
    let second =
      offered_line user_id price (percent_of s) l (new_line user_id l.id none (suc n)) t offered
        refl in
    ground (arith, first, second)

-- The listing is bought twice.
abbrev pub BoughtTwice : ℕ → ℕ → Listing → Market → Result Sold × Market → Type 0
BoughtTwice user_id price l s r =
    (a : Sold) × (r.0 ≡ ok a)
    × (a.total_amount_toman ≡ price + price)
    × ((p : Purchase) × (q : Purchase) × (r.1.purchases.rows ≡ q ∷ p ∷ s.purchases.rows)
        × (p.listing_id ≡ l.id)
        × (q.listing_id ≡ l.id)
        × (p.user_id ≡ user_id)
        × (q.user_id ≡ user_id))

sell_twice :
    (user_id price : ℕ) (l : Listing) (s : Market)
    → filter (is_line_of user_id) s.cart_items.rows ≡ []
    → IsOffered user_id l price s
    → let w = with_line user_id l.id (with_line user_id l.id s) in
      let r = sell_lines user_id (built_twice user_id l price s) nothing_sold w in
      sell_cart user_id (cart_rows user_id w) w ≡ (ok r.0, delete_lines (is_line_of user_id) r.1)
sell_twice user_id price l s empty offered =
    let w = with_line user_id l.id (with_line user_id l.id s) in
    let n = s.cart_items.next in
    let first = new_line user_id l.id none n in
    let second = new_line user_id l.id none (suc n) in
    ap (λ rows. sell_cart user_id rows w) (cart_twice user_id l.id s empty)
    ∙ sell_cart_lem user_id (first ∷ second ∷ []) first (second ∷ []) w refl
    ∙ ap (λ r. sell_checked user_id r.0 r.1 w) (checked_twice user_id price l s offered)

checked_out_twice :
    (user_id price : ℕ) (l : Listing) (s : Market)
    → filter (is_line_of user_id) s.cart_items.rows ≡ []
    → IsOffered user_id l price s
    → BoughtTwice user_id price l s
        (checked_out user_id (with_line user_id l.id (with_line user_id l.id s)))
checked_out_twice user_id price l s empty offered =
    let w = with_line user_id l.id (with_line user_id l.id s) in
    let built = built_twice user_id l price s in
    let r = sell_lines user_id built nothing_sold w in
    let t = delete_lines (is_line_of user_id) r.1 in
    let done = returns user_id w t r.0 (sell_twice user_id price l s empty offered) in
    let (bought_, _, total) = sell_lines_lem user_id built nothing_sold w in
    let n = s.purchases.next in
    let line =
      built_line (percent_of s) (new_line user_id l.id none s.cart_items.next) l none price 0 in
    let again =
      built_line (percent_of s) (new_line user_id l.id none (suc s.cart_items.next)) l none price
        0 in
    subst (BoughtTwice user_id price l s) (sym done) (
      r.0,
      refl,
      omega (arith, total),
      (
        new_purchase user_id line n,
        new_purchase user_id again (suc n),
        ap (λ x. x.rows) (after_commit-Kept user_id r.0 t).0 ∙ bought_,
        refl,
        refl,
        refl,
        refl,
      ),
    )

-- Where a user with an empty cart adds a ONE_TIME listing twice, and both calls look for the line before
-- either has created it, both create one, since the unique constraint takes the null pack of the two
-- for different; and the checkout then buys the listing twice, for twice its price.
pub bought_twice :
    (user_id price : ℕ) (l : Listing) (s : Market)
    → filter (is_line_of user_id) s.cart_items.rows ≡ []
    → IsOffered user_id l price s
    → BoughtTwice user_id price l s (checked_out user_id (added_twice user_id l.id s))
bought_twice user_id price l s empty offered =
    subst (λ t. BoughtTwice user_id price l s (checked_out user_id t))
      (sym (added_twice_lem user_id l.id s)) (checked_out_twice user_id price l s empty offered)
