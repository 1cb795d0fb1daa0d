-- ===== src/Agents/Counted.antt =====
-- Every step of the services of apps/api/src/modules/agents keeps the counters of the listings.
use saziqo_platform.Prelude.{
  ℕ, ◌≤◌, ◌≡◌, ◌≢◌, refl, sym, ap, subst, Bool, true, false, some, List, [], ◌==◌, ==→eq, arith,
  inl, inr, Bool-cases, All, ◌⊎◌,
}
use saziqo_platform.Table.{Table, find_first, update, update_many}
use saziqo_platform.Table.Fresh.{IsFresh}
use saziqo_platform.Agents.{
  Market, Listing, RunOutcome, UserRuns, Review, listing_key, update_listing,
}
use saziqo_platform.Agents.Reviews.{review_key}
use saziqo_platform.Agents.Runs.{
  ConsumeInput, has_runs, after_one_run, with_user_runs, new_event, one_more_run,
}
use saziqo_platform.Agents.Checkout.{sell_line}
use saziqo_platform.Agents.Listings.{shown_ratings, rated, with_listing}
use saziqo_platform.Agents.Steps.{is_there, Step, event_if, one_run, with_events, with_review_table}
use saziqo_platform.Agents.Sequences.{Call, is_increment, called_all, stepped_all-kept}
use saziqo_platform.Agents.Tallies.{rows_of}
use saziqo_platform.Agents.Books.{IsBalanced}
use saziqo_platform.Agents.Balanced.{Step-IsBalanced}
use saziqo_platform.Agents.Counters.{consumed_on-run, IsCounted, there_below}
use saziqo_platform.Agents.Counters.Written.{
  SameCounts, counts_of, same_counts-IsCounted, written-IsCounted, edit-IsCounted, view-IsCounted,
  viewed, create-IsCounted,
}
use saziqo_platform.Agents.Counters.Sold.{same_tallies-IsCounted, sell_line-IsCounted}

abbrev taken : ConsumeInput → ℕ → ℕ → Market → Market
taken input i now s = with_user_runs (update_many (has_runs input.user_id i) (after_one_run now)) s

event_if_counts :
    (written : Bool) (input : ConsumeInput) (i : ℕ) (s : Market)
    → SameCounts s (event_if written (new_event input i RunOutcome.consumed) s)
event_if_counts true input i s = (refl, refl, refl, refl)
event_if_counts false input i s = (refl, refl, refl, refl)

taken-IsCounted :
    (input : ConsumeInput) (i now : ℕ) (r : UserRuns) (s : Market)
    → is_there i s ≡ true
    → find_first (has_runs input.user_id i) s.user_runs.rows ≡ some r
    → rows_of input.user_id i s.user_runs.rows ≤ 1
    → IsCounted s
    → IsCounted (update_listing i one_more_run (taken input i now s))
taken-IsCounted input i now r s there found one h =
    written-IsCounted s (update_listing i one_more_run (taken input i now s)) i one_more_run
      (λ l. refl) refl
      (λ j l c.
        ground (arith, c, consumed_on-run j input.user_id i now s.user_runs.rows r one found))
      (λ j late u.
        let low = there_below i s.listings.next s.listings.rows h.fresh.0 there in
        (
          u.0,
          ground (
            arith,
            u.1,
            low,
            late,
            consumed_on-run j input.user_id i now s.user_runs.rows r one found,
          ),
          u.2,
        ))
      h

-- The event makes no difference.
one_run-IsCounted :
    (written : Bool) (input : ConsumeInput) (i now : ℕ) (r : UserRuns) (s : Market)
    → is_there i s ≡ true
    → find_first (has_runs input.user_id i) s.user_runs.rows ≡ some r
    → rows_of input.user_id i s.user_runs.rows ≤ 1
    → IsCounted s
    → IsCounted (one_run written input i now s)
one_run-IsCounted written input i now r s there found one h =
    let t = taken input i now s in
    let (a, b, c, d) = event_if_counts written input i t in
    same_counts-IsCounted (update_listing i one_more_run t) (one_run written input i now s)
      (
        ap (λ (x : Table Listing). record { rows = update i one_more_run x.rows; next = x.next }) a,
        b,
        c,
        d,
      )
      (taken-IsCounted input i now r s there found one h)

reviewed-IsCounted :
    (s : Market) (i : ℕ) (rs : Table Review)
    → ((is_there i s ≡ true) ⊎ (shown_ratings i s.reviews.rows ≡ [] → shown_ratings i rs.rows ≡ []))
    → ((j : ℕ) → j ≢ i → shown_ratings j rs.rows ≡ shown_ratings j s.reviews.rows)
    → IsCounted s
    → IsCounted (update_listing i (rated (shown_ratings i rs.rows)) (with_review_table rs s))
reviewed-IsCounted s i rs there others h =
    let t = update_listing i (rated (shown_ratings i rs.rows)) (with_review_table rs s) in
    written-IsCounted s t i (rated (shown_ratings i rs.rows)) (λ l. refl) refl
      (λ j l c. elim (Bool-cases (i == j)) [
        | inr other ↦ ground (arith, other, c, others j)
        | inl here ↦
            let one = ==→eq i j here in
            ground (arith, here, c, ap (λ k. shown_ratings k rs.rows) one)
      ])
      (λ j late u. (
        u.0,
        u.1,
        elim (Bool-cases (i == j)) [
          | inr other ↦ ground (arith, other, u.2, others j)
          | inl here ↦
              let one = ==→eq i j here in
              elim there [
                | inl known ↦ absurd (
                    ground (
                      arith,
                      one,
                      late,
                      there_below i s.listings.next s.listings.rows h.fresh.0 known,
                    ))
                | inr none_ ↦
                    subst (λ k. shown_ratings k rs.rows ≡ []) one
                      (none_ (subst (λ k. shown_ratings k s.reviews.rows ≡ []) (sym one) u.2))
              ]
        ],
      ))
      h

abbrev IsInSync : Market → Type 0
IsInSync s = IsBalanced s × IsCounted s

Step-IsCounted : (s t : Market) → Step s t → IsInSync s → IsCounted t
Step-IsCounted s t (Step.aside _ same) h = same_counts-IsCounted s t (counts_of s t same) h.1
Step-IsCounted s t (Step.moves _ l f found edge keeps same) h =
    same_counts-IsCounted (update_listing l.id f s) t (counts_of (update_listing l.id f s) t same)
      (edit-IsCounted s l.id f keeps h.1)
Step-IsCounted s t (Step.edits _ i f keeps same) h =
    same_counts-IsCounted (update_listing i f s) t (counts_of (update_listing i f s) t same)
      (edit-IsCounted s i f (λ m. (keeps m).0) h.1)
Step-IsCounted s t (Step.views _ slug same) h =
    same_counts-IsCounted (viewed slug s) t (counts_of (viewed slug s) t same)
      (view-IsCounted s slug h.1)
Step-IsCounted s t (Step.creates _ lower maker dto shape new room same) h =
    same_counts-IsCounted (with_listing lower maker dto s) t
      (counts_of (with_listing lower maker dto s) t same) (create-IsCounted s lower maker dto h.1)
Step-IsCounted s t (Step.sells _ user_id line sellable same) h =
    same_counts-IsCounted (sell_line user_id line s) t (counts_of (sell_line user_id line s) t same)
      (sell_line-IsCounted user_id line s sellable h.1)
Step-IsCounted s t (Step.refuses _ mk refusal same) h =
    same_counts-IsCounted s t (counts_of (with_events mk s) t same) h.1
Step-IsCounted s t (Step.consumes _ written input i now r there found same) h =
    same_counts-IsCounted (one_run written input i now s) t
      (counts_of (one_run written input i now s) t same)
      (one_run-IsCounted written input i now r s there found (h.0.one_row input.user_id i) h.1)
Step-IsCounted s t (Step.rates _ i rs there fresh others same) h =
    let u = update_listing i (rated (shown_ratings i rs.rows)) (with_review_table rs s) in
    same_counts-IsCounted u t (counts_of u t same) (reviewed-IsCounted s i rs there others h.1)
Step-IsCounted s t (Step.rewords _ rs fresh others same) h =
    same_counts-IsCounted (with_review_table rs s) t (counts_of (with_review_table rs s) t same)
      (same_tallies-IsCounted s (with_review_table rs s) refl (λ j. (refl, refl, others j)) h.1)

-- After any calls on the marketplace, from a state in which this and the balance of the runs hold: for
-- each listing, totalUsers is the number of different users with a purchase of it, totalRuns is the
-- number of its runs that were used, and ratingCount and ratingAverage are those of its reviews that
-- are not hidden. The calls incrementUserCount and incrementRunCount, each of which raises a counter by
-- itself, are not among these calls.
pub called_all-IsCounted :
    (calls : List Call) (s : Market)
    → All (λ c. is_increment c ≡ false) calls
    → IsFresh s.reviews
    → IsBalanced s
    → IsCounted s
    → IsCounted (called_all calls s)
called_all-IsCounted calls s steps fresh balanced counted =
    (stepped_all-kept IsInSync (λ x y st h. (Step-IsBalanced x y st h.0, Step-IsCounted x y st h))
      calls s steps (fresh, (balanced, counted))).1
