-- ===== src/Agents/Checkout/Ended.antt =====
-- Every outcome of `checkout` of apps/api/src/modules/agents/services/checkout.service.ts.
use saziqo_platform.Prelude.{ℕ, ◌≡◌, refl, ◌⊎◌, inl, inr, true, false, Bool-cases}
use saziqo_platform.Action.{Result, err}
use saziqo_platform.Agents.{Market}
use saziqo_platform.Agents.Checkout.Abort.{is_serialization_failure}
use saziqo_platform.Agents.Checkout.{Sold}
use saziqo_platform.Agents.Checkout.Commit.{
  Attempt, commits, aborts, aborted, attempted, run_with_serialization_retry, committed, checkout,
}
use saziqo_platform.Agents.Checkout.Returned.{Outcome, checked_out_outcome}

-- What the retry ends in.
abbrev pub Retried : ℕ → Attempt → Market → Result Sold × Market → Type 0
Retried user_id commits s r = Outcome user_id s r
Retried user_id (aborts x) s r = r ≡ (err (aborted x), s)

-- What a checkout ends in: an abort for a serialization failure is retried, on what others have
-- committed meanwhile.
abbrev pub Ended :
    ℕ → Attempt → Attempt → (Market → Market) → Market → Result Sold × Market → Type 0
Ended user_id commits again meanwhile s r = Outcome user_id s r
Ended user_id (aborts x) again meanwhile s r =
    ((is_serialization_failure x ≡ false) × (r ≡ (err (aborted x), s)))
    ⊎ ((is_serialization_failure x ≡ true) × Retried user_id again (meanwhile s) r)

attempted-Retried :
    (user_id : ℕ) (again : Attempt) (s : Market)
    → Retried user_id again s (committed user_id (attempted user_id again s))
unfolding checkout run_with_serialization_retry
attempted-Retried user_id commits s = checked_out_outcome user_id s
attempted-Retried user_id (aborts x) s = refl

-- A checkout whose attempt is committed has one of three outcomes. With no line in the cart it throws
-- EMPTY_CART, and with a line that fails its validation it throws CHECKOUT_VALIDATION_FAILED; either way
-- nothing is written. Otherwise it returns, and the new purchases are one for each line of the cart, in
-- its order; the total is the sum of their amounts, the user's cart is empty and the other carts are as
-- they were. The purchase for a line is the user's, of the line's listing, which was published; it costs
-- what the line's pack on sale costs and brings its runs, or costs what the listing costs and the user
-- did not own it; and its commission, at the rate of the settings, and the maker's part are together its
-- amount. An attempt that the database aborts writes nothing. For another reason than a serialization
-- failure the checkout throws that error; else it tries once more, on the state that others have
-- committed, and either has one of the three outcomes there or throws the error of the second abort.
pub checkout_outcome :
    (user_id : ℕ) (first again : Attempt) (meanwhile : Market → Market) (s : Market)
    → Ended user_id first again meanwhile s (checkout user_id first again meanwhile s)
unfolding checkout run_with_serialization_retry
checkout_outcome user_id commits again meanwhile s = checked_out_outcome user_id s
checkout_outcome user_id (aborts x) again meanwhile s =
    elim (Bool-cases (is_serialization_failure x)) [
      | inr other ↦ inl (other, rw other refl)
      | inl conflict ↦ inr (conflict, rw conflict (attempted-Retried user_id again (meanwhile s)))
    ]
