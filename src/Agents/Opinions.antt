-- ===== src/Agents/Opinions.antt =====
-- The reviews of apps/api/src/modules/agents/services/reviews.service.ts, as steps.
use saziqo_platform.Prelude.{
  ℕ, ◌≡◌, ◌≢◌, refl, Bool, false, not, Option, none, some, List, [], ◌∷◌, Text, inl, inr, ltb, ◌||◌,
  arith, Option-cases, Bool-cases, filter,
}
use saziqo_platform.Table.{Table, find_unique, find_first, update, insert}
use saziqo_platform.Agents.{
  Market, Listing, Purchase, Review, listing_key, is_owned, is_live, update_listing,
}
use saziqo_platform.Agents.Listings.{rated, shown_ratings, recompute_rating}
use saziqo_platform.Agents.Reviews.{
  PostReviewInput, review_key, assert_ownership, is_review_by, new_review, edited, upsert_review,
  post,
}
use saziqo_platform.Agents.Steps.{Same, with_review_table, Step, Steps, single, stays}
use saziqo_platform.Table.Fresh.{IsFresh, insert-IsFresh, update-IsFresh, first_found}
use saziqo_platform.Agents.Checkout.Validated.{live_there}

-- A new review counts for its own listing only.
insert_elsewhere :
    (input : PostReviewInput) (n j : ℕ) (rows : List Review)
    → j ≢ input.listing_id
    → shown_ratings j (new_review input n ∷ rows) ≡ shown_ratings j rows
insert_elsewhere input n j rows other = ground arith

-- An edit of a row of a listing changes the ratings of no other.
pub update_elsewhere :
    (f : Review → Review) (i j k : ℕ) (rows : List Review) (r : Review)
    → ((x : Review) → ((f x).listing_id ≡ x.listing_id) × ((f x).is_hidden ≡ x.is_hidden))
    → find_unique k rows ≡ some r
    → r.listing_id ≡ i
    → j ≢ i
    → shown_ratings j (update k f rows) ≡ shown_ratings j rows
update_elsewhere f i j k [] r keeps found own other = refl
update_elsewhere f i j k (x ∷ rows) r keeps found own other =
    ground (arith, keeps x, update_elsewhere f i j k rows r keeps)

pub filter_elsewhere :
    (user_id i j : ℕ) (rows : List Review)
    → j ≢ i
    → shown_ratings j (filter (λ r. not (is_review_by user_id i r)) rows) ≡ shown_ratings j rows
filter_elsewhere user_id i j [] other = refl
filter_elsewhere user_id i j (x ∷ rows) other =
    ground (arith, filter_elsewhere user_id i j rows other)

pub reword_same :
    (body : Review → Option Text) (j k : ℕ) (rows : List Review)
    → shown_ratings j (update k (λ r. edited r.rating (body r) r) rows) ≡ shown_ratings j rows
reword_same body j k [] = refl
reword_same body j k (x ∷ rows) = ground (arith, reword_same body j k rows)

-- The reviews after a post.
abbrev posted : PostReviewInput → Market → Option Review → Table Review
posted input s none = insert (new_review input) s.reviews
posted input s (some r) = record {
  rows = update r.id (edited input.rating input.body_fa) s.reviews.rows;
  next = s.reviews.next;
}

-- The review of a user for a listing is the one that its key finds.
pub review_found :
    (user_id i : ℕ) (s : Market) (r : Review)
    → IsFresh s.reviews
    → find_first (is_review_by user_id i) s.reviews.rows ≡ some r
    → (find_unique r.id s.reviews.rows ≡ some r) × (r.listing_id ≡ i)
review_found user_id i s r fresh e =
    let (found, mine) = first_found (is_review_by user_id i) s.reviews.rows r fresh.1 e in
    (found, ground (arith, mine))

posted_elsewhere :
    (input : PostReviewInput) (s : Market) (o : Option Review) (j : ℕ)
    → IsFresh s.reviews
    → find_first (is_review_by input.user_id input.listing_id) s.reviews.rows ≡ o
    → j ≢ input.listing_id
    → shown_ratings j (posted input s o).rows ≡ shown_ratings j s.reviews.rows
posted_elsewhere input s none j fresh e other =
    insert_elsewhere input s.reviews.next j s.reviews.rows other
posted_elsewhere input s (some r) j fresh e other =
    let (found, own) = review_found input.user_id input.listing_id s r fresh e in
    update_elsewhere (edited input.rating input.body_fa) input.listing_id j r.id s.reviews.rows r
      (λ x. (refl, refl)) found own other

posted-IsFresh :
    (input : PostReviewInput) (s : Market) (o : Option Review)
    → IsFresh s.reviews
    → IsFresh (posted input s o)
posted-IsFresh input s none fresh = insert-IsFresh (new_review input) s.reviews refl fresh
posted-IsFresh input s (some r) fresh =
    update-IsFresh r.id (edited input.rating input.body_fa) s.reviews (λ x. refl) fresh

post_state :
    (input : PostReviewInput) (s : Market) (p : Purchase) (l m : Listing) (o : Option Review)
    → (ltb input.rating 1 || ltb 5 input.rating) ≡ false
    → find_first (is_owned input.user_id input.listing_id) s.purchases.rows ≡ some p
    → find_first (is_live input.listing_id) s.listings.rows ≡ some l
    → find_unique input.listing_id s.listings.rows ≡ some m
    → find_first (is_review_by input.user_id input.listing_id) s.reviews.rows ≡ o
    → Same
        (update_listing input.listing_id
          (rated (shown_ratings input.listing_id (posted input s o).rows))
          (with_review_table (posted input s o) s))
        (post input s).1
unfolding post assert_ownership upsert_review recompute_rating
post_state input s p l m none good owned live there e = ground (arith, good, owned, live, there, e)
post_state input s p l m (some r) good owned live there e =
    ground (arith, good, owned, live, there, e)

abbrev pub is_bad : ℕ → Bool
is_bad rating = ltb rating 1 || ltb 5 rating

pub post-Steps :
    (input : PostReviewInput) (s : Market) → IsFresh s.reviews → Steps s (post input s).1
unfolding post assert_ownership upsert_review recompute_rating
post-Steps input s fresh = elim (Bool-cases (is_bad input.rating)) [
  | inl bad ↦ stays s (post input s).1 (ground (arith, bad))
  | inr good ↦
      elim (Option-cases (find_first (is_owned input.user_id input.listing_id) s.purchases.rows)) [
        | inl none_ ↦ stays s (post input s).1 (ground (arith, good, none_))
        | inr (p, owned) ↦
            elim (Option-cases (find_first (is_live input.listing_id) s.listings.rows)) [
              | inl gone ↦ stays s (post input s).1 (ground (arith, good, owned, gone))
              | inr (l, live) ↦
                  let there = (live_there input.listing_id s.listings.rows l live).1 in
                  elim (Option-cases (find_unique input.listing_id s.listings.rows)) [
                    | inl lost ↦ absurd (ground (arith, lost, there))
                    | inr (m, found) ↦
                        let o =
                          find_first (is_review_by input.user_id input.listing_id) s.reviews.rows in
                        single (
                          Step.rates (post input s).1 input.listing_id (posted input s o)
                            (inl there) (posted-IsFresh input s o)
                            (λ j. posted_elsewhere input s o j fresh refl)
                            (post_state input s p l m o good owned live found refl))
                  ]
            ]
      ]
]
