-- ===== src/Agents/Checkout/Once.antt =====
-- Two checkouts of one user in apps/api/src/modules/agents/services/checkout.service.ts, one behind the
-- other or at once.
use saziqo_platform.Prelude.{
  ℕ, ◌≡◌, refl, ap, ◌∙◌, Bool, true, not, List, [], ◌∷◌, inl, inr, arith, filter, reverse,
}
use saziqo_platform.Action.{ok, err}
use saziqo_platform.Agents.{Market, CartItem}
use saziqo_platform.Agents.Cart.{is_line_of}
use saziqo_platform.Agents.Checkout.Abort.{DbError, is_serialization_failure}
use saziqo_platform.Agents.Checkout.{Sold, check_lines}
use saziqo_platform.Agents.Checkout.Commit.{
  cart_rows, percent_of, empty_cart, commits, aborts, run_with_serialization_retry, checkout,
}
use saziqo_platform.Agents.Checkout.Returned.{checked_out, checked_out_outcome}

nothing_left :
    (p : CartItem → Bool) (rows : List CartItem) → filter p (filter (λ c. not (p c)) rows) ≡ []
nothing_left p [] = refl
nothing_left p (c ∷ rows) = ground (arith, nothing_left p rows)

emptied :
    (user_id : ℕ) (s : Market) (a : Sold)
    → (checked_out user_id s).0 ≡ ok a
    → cart_rows user_id (checked_out user_id s).1 ≡ []
emptied user_id s a e = elim (checked_out_outcome user_id s) [
  | inl (_, thrown) ↦ absurd (ground (arith, e, ap (λ x. x.0) thrown))
  | inr rest ↦ elim rest [
    | inl (_, thrown) ↦ absurd (ground (arith, e, ap (λ x. x.0) thrown))
    | inr (_, _, (_, _, (_, _, _, _, cart))) ↦
        ap (λ rows. reverse (filter (is_line_of user_id) rows)) cart
        ∙ ap reverse (nothing_left (is_line_of user_id) s.cart_items.rows)
  ]
]

-- With an empty cart a checkout throws.
empty_throws :
    (user_id : ℕ) (s : Market)
    → cart_rows user_id s ≡ []
    → checked_out user_id s ≡ (err empty_cart, s)
unfolding check_lines
empty_throws user_id s e = elim (checked_out_outcome user_id s) [
  | inl (_, thrown) ↦ thrown
  | inr rest ↦ elim rest [
    | inl (bad, _) ↦ absurd (bad (ap (λ rows. (check_lines s user_id (percent_of s) rows).1) e))
    | inr (some_, _, _) ↦ absurd (some_ e)
  ]
]

-- A serialization failure is retried on what the others have committed.
retried :
    (user_id : ℕ) (x : DbError) (meanwhile : Market → Market) (s : Market)
    → is_serialization_failure x ≡ true
    → checkout user_id (aborts x) commits meanwhile s ≡ checked_out user_id (meanwhile s)
unfolding checkout run_with_serialization_retry
retried user_id x meanwhile s e = rw e refl

-- When a checkout has returned, a second one by the same user, before anything else, throws EMPTY_CART
-- and writes nothing; and so does one that was aborted for a serialization failure while the first
-- committed, by its retry.
pub checkout_once :
    (user_id : ℕ) (s : Market) (a : Sold) (x : DbError)
    → is_serialization_failure x ≡ true
    → (checked_out user_id s).0 ≡ ok a
    → let t = (checked_out user_id s).1 in
      (checked_out user_id t ≡ (err empty_cart, t))
      × (checkout user_id (aborts x) commits (λ u. (checked_out user_id u).1) s
          ≡ (err empty_cart, t))
checkout_once user_id s a x conflict e =
    let t = (checked_out user_id s).1 in
    let gone = empty_throws user_id t (emptied user_id s a e) in
    (gone, retried user_id x (λ u. (checked_out user_id u).1) s conflict ∙ gone)
