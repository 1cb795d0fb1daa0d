-- ===== src/Agents/Balanced.antt =====
-- The books of runs of apps/api/src/modules/agents/services along any calls: what was bought, granted,
-- used and left.
use saziqo_platform.Prelude.{
  ℕ, ◌+◌, ◌≤◌, ◌≡◌, ◌≢◌, refl, sym, ap, ◌∙◌, subst, Bool, true, false, some, List, [], arith, All,
}
use saziqo_platform.Table.{find_first, update_many}
use saziqo_platform.Table.Fresh.{IsFresh}
use saziqo_platform.Agents.{Market, UserRuns, RunEvent, RunOutcome, listing_key, update_listing}
use saziqo_platform.Agents.Reviews.{review_key}
use saziqo_platform.Agents.Runs.{
  ConsumeInput, has_runs, after_one_run, one_more_run, with_user_runs, new_event,
}
use saziqo_platform.Agents.Checkout.{sell_line, one_more_user}
use saziqo_platform.Agents.Steps.{Step, with_events, event_if, one_run}
use saziqo_platform.Agents.Increments.{Raised}
use saziqo_platform.Agents.Sequences.{Call, called_all, called_all-kept}
use saziqo_platform.Agents.Tallies.{
  consumed_by_granted, rows_of, granted_to, consumed_by, bought_by, consumed_events, IsSettled,
  if_same, rows_of-run, granted_to-run, consumed_by-run, IsSettled-run,
}
use saziqo_platform.Agents.Books.{IsBalanced, same_books-IsBalanced, books_of, sell_line-IsBalanced}

-- An event that is no consumption leaves the counts.
with_events-IsBalanced :
    (mk : ℕ → RunEvent) (s : Market)
    → ((i : ℕ) → (mk i).outcome ≢ RunOutcome.consumed)
    → IsBalanced s
    → IsBalanced (with_events mk s)
with_events-IsBalanced mk s refusal h = record {
  one_row = h.one_row;
  settled = h.settled;
  bought = h.bought;
  events = λ a b. ground (arith, h.events a b, refusal s.run_events.next);
}

one_event_more :
    (written : Bool) (input : ConsumeInput) (i : ℕ) (s : Market) (a b : ℕ)
    → consumed_events a b
        (event_if written (new_event input i RunOutcome.consumed) s).run_events.rows
      ≤ consumed_events a b s.run_events.rows + if_same a b input.user_id i 1
one_event_more true input i s a b = ground arith
one_event_more false input i s a b = omega arith

event_if_others :
    (written : Bool) (mk : ℕ → RunEvent) (s : Market)
    → ((event_if written mk s).user_runs ≡ s.user_runs)
      × ((event_if written mk s).purchases ≡ s.purchases)
event_if_others true mk s = (refl, refl)
event_if_others false mk s = (refl, refl)

abbrev taken : ConsumeInput → ℕ → ℕ → Market → Market
taken input i now s = with_user_runs (update_many (has_runs input.user_id i) (after_one_run now)) s

one_run-IsBalanced :
    (written : Bool) (input : ConsumeInput) (i now : ℕ) (r : UserRuns) (s : Market)
    → find_first (has_runs input.user_id i) s.user_runs.rows ≡ some r
    → IsBalanced s
    → IsBalanced (one_run written input i now s)
one_run-IsBalanced written input i now r s found h =
    let mk = new_event input i RunOutcome.consumed in
    let t = taken input i now s in
    let (q, p) = event_if_others written mk t in
    record {
      one_row = λ a b. ground (
        arith,
        ap (λ x. rows_of a b x.rows) q,
        rows_of-run a b input.user_id i now s.user_runs.rows,
        h.one_row a b,
      );
      settled =
          subst (λ x. All IsSettled x.rows) (sym q)
            (IsSettled-run input.user_id i now s.user_runs.rows h.settled);
      bought = λ a b.
          ap (λ x. granted_to a b x.rows) q
          ∙ granted_to-run a b input.user_id i now s.user_runs.rows
          ∙ h.bought a b
          ∙ ap (λ x. bought_by a b x.rows) (sym p);
      events = λ a b. ground (
        arith,
        one_event_more written input i t a b,
        ap (λ x. consumed_by a b x.rows) q,
        consumed_by-run a b input.user_id i now s.user_runs.rows r (h.one_row input.user_id i)
            found,
        h.events a b,
      );
    }

pub Step-IsBalanced : (s t : Market) → Step s t → IsBalanced s → IsBalanced t
Step-IsBalanced s t (Step.aside _ same) h = same_books-IsBalanced s t (books_of s t same) h
Step-IsBalanced s t (Step.moves _ l f found edge keeps same) h =
    same_books-IsBalanced (update_listing l.id f s) t (books_of (update_listing l.id f s) t same)
      (same_books-IsBalanced s (update_listing l.id f s) (refl, refl, refl) h)
Step-IsBalanced s t (Step.edits _ i f keeps same) h =
    same_books-IsBalanced s t (same.2, same.3, same.4) h
Step-IsBalanced s t (Step.views _ slug same) h =
    same_books-IsBalanced s t (same.2, same.3, same.4) h
Step-IsBalanced s t (Step.creates _ lower maker dto shape new room same) h =
    same_books-IsBalanced s t (same.2, same.3, same.4) h
Step-IsBalanced s t (Step.sells _ user_id line sellable same) h =
    same_books-IsBalanced (sell_line user_id line s) t (books_of (sell_line user_id line s) t same)
      (sell_line-IsBalanced user_id line s sellable h)
Step-IsBalanced s t (Step.refuses _ mk refusal same) h =
    same_books-IsBalanced (with_events mk s) t (books_of (with_events mk s) t same)
      (with_events-IsBalanced mk s refusal h)
Step-IsBalanced s t (Step.consumes _ written input i now r there found same) h =
    same_books-IsBalanced (one_run written input i now s) t
      (books_of (one_run written input i now s) t same)
      (one_run-IsBalanced written input i now r s found h)
Step-IsBalanced s t (Step.rates _ i rs there fresh others same) h =
    same_books-IsBalanced s t (same.2, same.3, same.4) h
Step-IsBalanced s t (Step.rewords _ rs fresh others same) h =
    same_books-IsBalanced s t (same.2, same.3, same.4) h

empty-IsBalanced :
    (s : Market)
    → s.purchases.rows ≡ []
    → s.user_runs.rows ≡ []
    → s.run_events.rows ≡ []
    → IsBalanced s
empty-IsBalanced s p q r = record {
  one_row = λ a b. rw q (omega arith);
  settled = rw q tt;
  bought = λ a b. rw (p, q) refl;
  events = λ a b. rw (q, r) (omega arith);
}

Raised-IsBalanced : Raised IsBalanced
Raised-IsBalanced s i h = (
  same_books-IsBalanced s (update_listing i one_more_user s) (refl, refl, refl) h,
  same_books-IsBalanced s (update_listing i one_more_run s) (refl, refl, refl) h,
)

-- After any calls on the marketplace, from books in which this holds: for each user and listing there
-- is at most one row of runs, the runs left and the runs used of each row are the runs granted, the
-- runs granted are the sum of the user's purchases for the listing, and there are no more CONSUMED
-- events than runs used.
pub called_all-IsBalanced :
    (calls : List Call) (s : Market)
    → IsFresh s.reviews
    → IsBalanced s
    → IsBalanced (called_all calls s)
called_all-IsBalanced calls s fresh h =
    called_all-kept IsBalanced Step-IsBalanced Raised-IsBalanced calls s fresh h

-- Whatever calls were made, from a marketplace with no purchases, runs and events: a user has no more
-- CONSUMED events for a listing than runs that the user bought for it.
pub consumed_within_bought :
    (calls : List Call) (s : Market) (user_id listing_id : ℕ)
    → IsFresh s.reviews
    → s.purchases.rows ≡ []
    → s.user_runs.rows ≡ []
    → s.run_events.rows ≡ []
    → let t = called_all calls s in
      consumed_events user_id listing_id t.run_events.rows
      ≤ bought_by user_id listing_id t.purchases.rows
consumed_within_bought calls s user_id listing_id fresh p q r =
    let h = called_all-IsBalanced calls s fresh (empty-IsBalanced s p q r) in
    let used =
      consumed_by_granted user_id listing_id (called_all calls s).user_runs.rows h.settled in
    omega (arith, used, h.bought user_id listing_id, h.events user_id listing_id)
