-- ===== src/Agents/Corrections.antt =====
-- The edit and the deletion of a review in apps/api/src/modules/agents/services/reviews.service.ts, as
-- steps.
use saziqo_platform.Prelude.{
  ℕ, ◌≡◌, refl, sym, ap, subst, Bool, true, not, Option, none, some, List, [], ◌∷◌, inl, inr, arith,
  Option-cases, Bool-cases, any, filter, get_or,
}
use saziqo_platform.Action.{ok}
use saziqo_platform.Table.{Table, find_unique, find_first, update}
use saziqo_platform.Table.Fresh.{IsFresh, update-IsFresh, filter-IsFresh}
use saziqo_platform.Agents.{
  Market, Listing, Purchase, Review, listing_key, is_owned, is_live, update_listing,
}
use saziqo_platform.Agents.Listings.{rated, shown_ratings, recompute_rating}
use saziqo_platform.Agents.Reviews.{
  UpdateReviewInput, review_key, assert_ownership, is_review_by, edited, patched, update_review,
  delete_review, assert_new_rating,
}
use saziqo_platform.Agents.Steps.{Same, with_review_table, Step, Steps, single, stays}
use saziqo_platform.Agents.Checkout.Validated.{live_there}
use saziqo_platform.Agents.Opinions.{
  update_elsewhere, filter_elsewhere, reword_same, review_found, is_bad,
}

-- The reviews after an edit of a row.
abbrev corrected : UpdateReviewInput → Market → Review → Table Review
corrected input s r = record {
  rows = update r.id (patched input) s.reviews.rows;
  next = s.reviews.next;
}

-- What an edit does behind its look-ups.
edit-Step :
    (input : UpdateReviewInput) (new : Option ℕ) (s : Market) (p : Purchase) (l m : Listing)
    (r : Review)
    → IsFresh s.reviews
    → input.rating ≡ new
    → (assert_new_rating new s).0 ≡ ok tt
    → find_first (is_owned input.user_id input.listing_id) s.purchases.rows ≡ some p
    → find_first (is_live input.listing_id) s.listings.rows ≡ some l
    → find_unique input.listing_id s.listings.rows ≡ some m
    → find_first (is_review_by input.user_id input.listing_id) s.reviews.rows ≡ some r
    → Step s (update_review input s).1
unfolding update_review assert_ownership recompute_rating
edit-Step input none s p l m r fresh same good owned live there e =
    Step.rewords (update_review input s).1 (corrected input s r)
      (update-IsFresh r.id (patched input) s.reviews (λ x. refl))
      (λ j.
        subst
          (λ o.
            shown_ratings j (
              update r.id (λ x. edited (get_or o x.rating) (get_or input.body_fa x.body_fa) x)
                s.reviews.rows)
            ≡ shown_ratings j s.reviews.rows)
          (sym same) (reword_same (λ x. get_or input.body_fa x.body_fa) j r.id s.reviews.rows))
      (ground (arith, same, owned, live, e))
edit-Step input (some rating) s p l m r fresh same good owned live there e =
    Step.rates (update_review input s).1 input.listing_id (corrected input s r)
      (inl (ground (arith, there))) (update-IsFresh r.id (patched input) s.reviews (λ x. refl))
      (λ j other.
        update_elsewhere (patched input) input.listing_id j r.id s.reviews.rows r
          (λ x. (refl, refl)) (review_found input.user_id input.listing_id s r fresh e).0
          (review_found input.user_id input.listing_id s r fresh e).1 other)
      (ground (arith, same, good, owned, live, there, e))

passed-Steps :
    (input : UpdateReviewInput) (new : Option ℕ) (s : Market)
    → IsFresh s.reviews
    → input.rating ≡ new
    → assert_new_rating input.rating s ≡ (ok tt, s)
    → Steps s (update_review input s).1
unfolding update_review assert_ownership
passed-Steps input new s fresh same pass =
    elim (Option-cases (find_first (is_owned input.user_id input.listing_id) s.purchases.rows)) [
      | inl none_ ↦ stays s (update_review input s).1 (ground (arith, pass, none_))
      | inr (p, owned) ↦
          elim (Option-cases (find_first (is_live input.listing_id) s.listings.rows)) [
            | inl gone ↦ stays s (update_review input s).1 (ground (arith, pass, owned, gone))
            | inr (l, live) ↦
                elim (Option-cases
                  (find_first (is_review_by input.user_id input.listing_id) s.reviews.rows)) [
                    | inl unwritten ↦
                        stays s (update_review input s).1
                          (ground (arith, pass, owned, live, unwritten))
                    | inr (r, e) ↦
                        let there = (live_there input.listing_id s.listings.rows l live).1 in
                        elim (Option-cases (find_unique input.listing_id s.listings.rows)) [
                          | inl lost ↦ absurd (ground (arith, lost, there))
                          | inr (m, found) ↦
                              let good =
                                subst (λ o. assert_new_rating o s ≡ (ok tt, s)) same pass in
                              single (
                                edit-Step input new s p l m r fresh same (ap (λ x. x.0) good) owned
                                  live found e)
                        ]
                  ]
          ]
    ]

pub update-Steps :
    (input : UpdateReviewInput) (s : Market) → IsFresh s.reviews → Steps s (update_review input s).1
unfolding update_review
update-Steps input s fresh = elim (Option-cases input.rating) [
  | inl e ↦ passed-Steps input none s fresh e (ground (arith, e))
  | inr (x, e) ↦ elim (Bool-cases (is_bad x)) [
    | inl bad ↦ stays s (update_review input s).1 (ground (arith, e, bad))
    | inr good ↦ passed-Steps input (some x) s fresh e (ground (arith, e, good))
  ]
]

-- The reviews after a deletion.
abbrev without : ℕ → ℕ → Market → Table Review
without user_id i s = record {
  rows = filter (λ r. not (is_review_by user_id i r)) s.reviews.rows;
  next = s.reviews.next;
}

update_missing :
    (i : ℕ) (f : Listing → Listing) (rows : List Listing)
    → find_unique i rows ≡ none
    → update i f rows ≡ rows
update_missing i f [] e = refl
update_missing i f (l ∷ rows) e = ground (arith, update_missing i f rows)

filter_none_shown :
    (i : ℕ) (p : Review → Bool) (rows : List Review)
    → shown_ratings i rows ≡ []
    → shown_ratings i (filter p rows) ≡ []
filter_none_shown i p [] e = refl
filter_none_shown i p (r ∷ rows) e = ground (arith, filter_none_shown i p rows)

-- The table of reviews, and the listing's rating if the listing is there.
delete_state :
    (user_id i : ℕ) (s : Market)
    → any (is_review_by user_id i) s.reviews.rows ≡ true
    → Same
        (update_listing i
          (rated (shown_ratings i (without user_id i s).rows))
          (with_review_table (without user_id i s) s))
        (delete_review user_id i s).1
unfolding delete_review recompute_rating
delete_state user_id i s written = elim (Option-cases (find_unique i s.listings.rows)) [
  | inr (m, found) ↦ ground (arith, written, found)
  | inl lost ↦
      let f = rated (shown_ratings i (without user_id i s).rows) in
      ground (arith, written, lost, update_missing i f s.listings.rows lost)
]

pub delete-Steps : (user_id i : ℕ) (s : Market) → Steps s (delete_review user_id i s).1
unfolding delete_review
delete-Steps user_id i s = elim (Bool-cases (any (is_review_by user_id i) s.reviews.rows)) [
  | inr unwritten ↦ stays s (delete_review user_id i s).1 (ground (arith, unwritten))
  | inl written ↦ single (
      Step.rates (delete_review user_id i s).1 i (without user_id i s)
        (inr (filter_none_shown i (λ r. not (is_review_by user_id i r)) s.reviews.rows))
        (filter-IsFresh (λ r. not (is_review_by user_id i r)) s.reviews)
        (λ j other. filter_elsewhere user_id i j s.reviews.rows other)
        (delete_state user_id i s written))
]
